-- ===== src/Program/Private/Shares.antt =====
-- The private shares over time: positions are opened, credited, redeemed from, marked and handed over
-- in any order, and the aggregate counts their shares.
pub mod Backed
use agama_magicblock.Prelude.{
  ℕ, ◌+◌, ◌-◌, ◌≤◌, ◌<◌, ◌≡◌, refl, sym, ap, ◌∙◌, List, [], ◌∷◌, Option, none, some, ok, ◌==◌,
  arith, if◌then◌else◌, Bool, Result-cases, inl, inr,
}
use agama_magicblock.Chain.{Pubkey, Instruction}
use agama_magicblock.Program.Machine.{u64_size, saturating_add}
use agama_magicblock.Program.State.{Position, Shielded}
use agama_magicblock.Program.Pricing.{
  Loader, read_book, nav_for_pricing, shares_for, blend_entry, mark,
}
use agama_magicblock.Program.Access.{
  PermissionCall, Rotation, authorize_session, rotate_session, init_permission, set_permission,
  close_permission,
}
use agama_magicblock.Program.Exits.{
  RedeemPrivate, ExitOrder, Addresses, open_exit, redeem_private, redeem_private_to,
}
use agama_magicblock.Program.Exits.Opening.{Opened}
use agama_magicblock.Program.Accounts.{init_position}
use agama_magicblock.Program.Private.{PrivateAccounts, deposit_private, sync_position}
use agama_magicblock.Program.Private.Solvency.{open_exit_inv}

-- The position accounts, by their addresses, and the aggregate.
pub record Enclave : Type 0 where
  pub shielded : Shielded
  pub positions : List (Pubkey × Position)

abbrev pub position_at : Pubkey → List (Pubkey × Position) → Option Position
position_at k [] = none
position_at k ((j, p) ∷ ps) = let rest = position_at k ps in if j == k then some p else rest

abbrev pub store : Pubkey → Position → List (Pubkey × Position) → List (Pubkey × Position)
store k q [] = []
store k q ((j, p) ∷ ps) = let rest = store k q ps in if j == k then (j, q) ∷ ps else (j, p) ∷ rest

abbrev pub private_total : List (Pubkey × Position) → ℕ
private_total [] = 0
private_total ((j, p) ∷ ps) = p.private_shares + private_total ps

-- One successful handler. A new position stands at an address that has none; a deposit leaves the
-- aggregate below its last 64-bit number, where adding stops.
pub data Step (loader : Loader) (addresses : Addresses) : Enclave → Enclave → Type 0 where
  opened :
      (e : Enclave) (rent : ℕ → ℕ) (vault_key owner k : Pubkey)
      → position_at k e.positions ≡ none
      → Step loader addresses e
          (record e { positions = (k, (init_position rent vault_key owner k).0) ∷ e.positions })
  deposited :
      (e : Enclave) (k : Pubkey) (a : PrivateAccounts) (transaction : List Instruction)
      (current : ℕ) (depositor : Pubkey) (amount now : ℕ) (position : Position) (after : Shielded)
      → position_at k e.positions ≡ some a.position
      → a.shielded ≡ e.shielded
      → after.shares < u64_size - 1
      → deposit_private loader addresses a transaction current depositor amount now
        ≡ ok (position, after)
      → Step loader addresses e
          (record { shielded = after; positions = store k position e.positions })
  redeemed :
      (e : Enclave) (k : Pubkey) (a after : RedeemPrivate) (signer : Pubkey) (o : ExitOrder)
      (now : ℕ)
      → position_at k e.positions ≡ some a.position
      → a.shielded ≡ e.shielded
      → redeem_private loader a signer o now ≡ ok after
      → Step loader addresses e
          (record { shielded = after.shielded; positions = store k after.position e.positions })
  redeemed_to :
      (e : Enclave) (k : Pubkey) (a after : RedeemPrivate) (signer : Pubkey) (o : ExitOrder)
      (now : ℕ)
      → position_at k e.positions ≡ some a.position
      → a.shielded ≡ e.shielded
      → redeem_private_to loader a signer o now ≡ ok after
      → Step loader addresses e
          (record { shielded = after.shielded; positions = store k after.position e.positions })
  marked :
      (e : Enclave) (k : Pubkey) (a : PrivateAccounts) (held : Option ℕ) (now : ℕ)
      (position : Position)
      → position_at k e.positions ≡ some a.position
      → sync_position loader a held now ≡ ok position
      → Step loader addresses e (record e { positions = store k position e.positions })
  authorized :
      (e : Enclave) (k : Pubkey) (before after : Position) (now : ℕ) (session_key : Pubkey)
      → position_at k e.positions ≡ some before
      → authorize_session before now session_key ≡ ok after
      → Step loader addresses e (record e { positions = store k after e.positions })
  rotated :
      (e : Enclave) (k : Pubkey) (before after : Position) (r : Rotation) (now : ℕ)
      (session_key : Pubkey) (expiry : ℕ) (calls : List PermissionCall)
      → position_at k e.positions ≡ some before
      → rotate_session r before now session_key expiry ≡ ok (after, calls)
      → Step loader addresses e (record e { positions = store k after e.positions })
  gated :
      (e : Enclave) (k : Pubkey) (before after : Position) (signer : Pubkey) (now : ℕ)
      (created : Bool) (viewers : List Pubkey) (calls : List PermissionCall)
      → position_at k e.positions ≡ some before
      → init_permission before signer now created viewers ≡ ok (after, calls)
      → Step loader addresses e (record e { positions = store k after e.positions })
  permitted :
      (e : Enclave) (k : Pubkey) (before after : Position) (signer : Pubkey) (now : ℕ)
      (is_private : Bool) (viewers : List Pubkey) (calls : List PermissionCall)
      → position_at k e.positions ≡ some before
      → set_permission before signer now is_private viewers ≡ ok (after, calls)
      → Step loader addresses e (record e { positions = store k after e.positions })
  ungated :
      (e : Enclave) (k : Pubkey) (before after : Position) (signer : Pubkey) (now : ℕ)
      (calls : List PermissionCall)
      → position_at k e.positions ≡ some before
      → close_permission before signer now ≡ ok (after, calls)
      → Step loader addresses e (record e { positions = store k after e.positions })

-- Any number of them.
pub data Reaches (loader : Loader) (addresses : Addresses) : Enclave → Enclave → Type 0 where
  here : (e : Enclave) → Reaches loader addresses e e
  step :
      (c d e : Enclave)
      → Step loader addresses c d
      → Reaches loader addresses d e
      → Reaches loader addresses c e
