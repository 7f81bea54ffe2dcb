-- ===== src/Program/Private/Shares/Backed.antt =====
-- The aggregate counts what the positions hold: every step of the enclave keeps it so.
use agama_magicblock.Prelude.{
  ℕ, ◌+◌, ◌-◌, ◌≤◌, ◌≡◌, ap, List, [], ◌∷◌, Option, some, ok, arith, Result-cases, inl, inr,
}
use agama_magicblock.Chain.{Pubkey, Instruction}
use agama_magicblock.Program.Machine.{saturating_add}
use agama_magicblock.Program.State.{Position, Shielded}
use agama_magicblock.Program.Pricing.{
  Loader, read_book, nav_for_pricing, shares_for, blend_entry, mark,
}
use agama_magicblock.Program.Access.{
  authorize_session, rotate_session, init_permission, set_permission, close_permission,
}
use agama_magicblock.Program.Exits.{
  RedeemPrivate, ExitOrder, Addresses, open_exit, redeem_private, redeem_private_to,
}
use agama_magicblock.Program.Accounts.{init_position}
use agama_magicblock.Program.Private.{PrivateAccounts, deposit_private, sync_position}
use agama_magicblock.Program.Private.Solvency.{open_exit_inv}
use agama_magicblock.Program.Private.Shares.{
  Enclave, position_at, store, private_total, Step, opened, deposited, redeemed, redeemed_to,
  marked, authorized, rotated, gated, permitted, ungated, Reaches, here, step,
}

store-total :
    (k : Pubkey) (old new : Position) (ps : List (Pubkey × Position))
    → position_at k ps ≡ some old
    → private_total (store k new ps) + old.private_shares ≡ private_total ps + new.private_shares
store-total k old new [] found = cc
store-total k old new ((j, p) ∷ ps) found = ground (arith, store-total k old new ps)

at_most_total :
    (k : Pubkey) (p : Position) (ps : List (Pubkey × Position))
    → position_at k ps ≡ some p
    → p.private_shares ≤ private_total ps
at_most_total k p [] found = cc
at_most_total k p ((j, q) ∷ ps) found = ground (arith, at_most_total k p ps)

deposit_private-shares :
    (loader : Loader) (addresses : Addresses) (a : PrivateAccounts) (transaction : List Instruction)
    (current : ℕ) (depositor : Pubkey) (amount now : ℕ) (position : Position) (after : Shielded)
    → deposit_private loader addresses a transaction current depositor amount now
      ≡ ok (position, after)
    → (minted : ℕ) × ((position.private_shares ≡ saturating_add a.position.private_shares minted)
        × (after.shares ≡ saturating_add a.shielded.shares minted))
unfolding deposit_private mark blend_entry
deposit_private-shares loader addresses a transaction current depositor amount now position after
      done =
    elim (Result-cases (read_book loader a.book)) [
      | inr (e, unread) ↦ ground arith
      | inl (book, rb) ↦ elim (Result-cases (nav_for_pricing a.vault book a.shielded)) [
        | inr (e, unpriced) ↦ ground arith
        | inl ((nav, supply), rn) ↦ elim (Result-cases (shares_for amount nav supply)) [
          | inr (e, none_for_it) ↦ ground arith
          | inl (minted, rs) ↦ (minted, ground arith)
        ]
      ]
    ]

sync_position-shares :
    (loader : Loader) (a : PrivateAccounts) (held : Option ℕ) (now : ℕ) (position : Position)
    → sync_position loader a held now ≡ ok position
    → position.private_shares ≡ a.position.private_shares
unfolding sync_position mark blend_entry
sync_position-shares loader a held now position done = ground arith

open_exit-shares :
    (loader : Loader) (addresses : Addresses) (a after : RedeemPrivate) (o : ExitOrder) (now : ℕ)
    → open_exit loader a o now ≡ ok after
    → (o.shares ≤ a.position.private_shares)
      × ((after.position.private_shares ≡ a.position.private_shares - o.shares)
          × (after.shielded.shares ≡ a.shielded.shares - o.shares))
open_exit-shares loader addresses a after o now done =
    let (assets, by) = open_exit_inv loader addresses a after o now done in
    (by.owned, (by.burned, ap (λ s. s.shares) by.shielded))

redeem_private-shares :
    (loader : Loader) (a after : RedeemPrivate) (signer : Pubkey) (o : ExitOrder) (now : ℕ)
    → redeem_private loader a signer o now ≡ ok after
    → (b : ExitOrder) × (open_exit loader a b now ≡ ok after)
unfolding redeem_private
redeem_private-shares loader a after signer o now done =
    (record o { destination = a.position.owner }, ground arith)

redeem_private_to-shares :
    (loader : Loader) (a after : RedeemPrivate) (signer : Pubkey) (o : ExitOrder) (now : ℕ)
    → redeem_private_to loader a signer o now ≡ ok after
    → open_exit loader a o now ≡ ok after
unfolding redeem_private_to
redeem_private_to-shares loader a after signer o now done = ground arith

-- The positions' private shares add up to the aggregate's.
abbrev pub IsBacked : Enclave → Type 0
IsBacked e = private_total e.positions ≡ e.shielded.shares

-- Storing a position that holds as many private shares as before.
same-IsBacked :
    (e : Enclave) (k : Pubkey) (before after : Position)
    → IsBacked e
    → position_at k e.positions ≡ some before
    → after.private_shares ≡ before.private_shares
    → IsBacked (record e { positions = store k after e.positions })
same-IsBacked e k before after b found same =
    omega (arith, store-total k before after e.positions found)

redeem-IsBacked :
    (loader : Loader) (addresses : Addresses) (e : Enclave) (k : Pubkey) (a after : RedeemPrivate)
    (o : ExitOrder) (now : ℕ)
    → IsBacked e
    → position_at k e.positions ≡ some a.position
    → a.shielded ≡ e.shielded
    → open_exit loader a o now ≡ ok after
    → IsBacked
        (record { shielded = after.shielded; positions = store k after.position e.positions })
redeem-IsBacked loader addresses e k a after o now b found same done =
    let (owned, (burned, left)) = open_exit-shares loader addresses a after o now done in
    let shares : a.shielded.shares ≡ e.shielded.shares = ap (λ s. s.shares) same in
    omega (
      arith,
      store-total k a.position after.position e.positions found,
      at_most_total k a.position e.positions found,
    )

module _ (loader : Loader) (addresses : Addresses) where
  step-IsBacked : (c d : Enclave) → Step loader addresses c d → IsBacked c → IsBacked d
  unfolding init_position authorize_session rotate_session init_permission set_permission
      close_permission
  step-IsBacked _ _ (opened e rent vault_key owner k free) b = omega (arith, b)
  step-IsBacked _ _
        (deposited e k a transaction current depositor amount now position after found same room
          done)
        b =
      let (minted, (credited, counted)) =
        deposit_private-shares loader addresses a transaction current depositor amount now position
          after done in
      let shares : a.shielded.shares ≡ e.shielded.shares = ap (λ s. s.shares) same in
      omega (
        arith,
        store-total k a.position position e.positions found,
        at_most_total k a.position e.positions found,
      )
  step-IsBacked _ _ (redeemed e k a after signer o now found same done) b =
      let (p, exit) = redeem_private-shares loader a after signer o now done in
      redeem-IsBacked loader addresses e k a after p now b found same exit
  step-IsBacked _ _ (redeemed_to e k a after signer o now found same done) b =
      redeem-IsBacked loader addresses e k a after o now b found same
        (redeem_private_to-shares loader a after signer o now done)
  step-IsBacked _ _ (marked e k a held now position found done) b =
      same-IsBacked e k a.position position b found
        (sync_position-shares loader a held now position done)
  step-IsBacked _ _ (authorized e k before after now session_key found done) b =
      same-IsBacked e k before after b found (ground arith)
  step-IsBacked _ _ (rotated e k before after r now session_key expiry calls found done) b =
      same-IsBacked e k before after b found (ground arith)
  step-IsBacked _ _ (gated e k before after signer now created viewers calls found done) b =
      same-IsBacked e k before after b found (ground arith)
  step-IsBacked _ _ (permitted e k before after signer now is_private viewers calls found done) b =
      same-IsBacked e k before after b found (ground arith)
  step-IsBacked _ _ (ungated e k before after signer now calls found done) b =
      same-IsBacked e k before after b found (ground arith)

  reaches-IsBacked : (c d : Enclave) → Reaches loader addresses c d → IsBacked c → IsBacked d
  reaches-IsBacked _ _ (here e) b = b
  reaches-IsBacked _ _ (step c d e one more) b = reaches-IsBacked d e more (step-IsBacked c d one b)

  -- The aggregate counts every private share once. From positions that add up to it, after any
  -- openings, deposits, redemptions, marks and changes of sessions and permissions in any order, the
  -- positions' private shares still add up to the aggregate's, so that no position holds more shares
  -- than the aggregate counts.
  pub reaches_backed :
      (c d : Enclave)
      → IsBacked c
      → Reaches loader addresses c d
      → (private_total d.positions ≡ d.shielded.shares)
        × ((k : Pubkey) (p : Position)
            → position_at k d.positions ≡ some p
            → p.private_shares ≤ d.shielded.shares)
  reaches_backed c d b way =
      let end = reaches-IsBacked c d way b in
      (end, λ k p found. omega (arith, end, at_most_total k p d.positions found))
