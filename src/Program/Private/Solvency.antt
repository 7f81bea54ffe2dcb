-- ===== src/Program/Private/Solvency.antt =====
-- The private custody over time: deposits, opened tickets and settled tickets in any order, and
-- beside the program's accounts the dollars that the custody's token account holds.
use agama_magicblock.Prelude.{
  ℕ, ◌+◌, ◌-◌, ◌≤◌, ◌<◌, ◌≡◌, List, Option, some, ok, Result-cases, Option-cases, inl, inr, arith,
  get_elem?, ap, sym, ◌∙◌,
}
use agama_magicblock.Chain.{Pubkey, Instruction}
use agama_magicblock.Chain.Bytes.{from_le, slice}
use agama_magicblock.Program.Machine.{u64_size, saturating_add}
use agama_magicblock.Program.State.{Position, Shielded, Exit, ExitBook, free_exit}
use agama_magicblock.Program.Pricing.{Loader, read_book, nav_for_pricing}
use agama_magicblock.Program.Exits.{
  RedeemPrivate, ExitOrder, SettleExit, Addresses, find_id, replace_id, open_exit, settle_exit,
  ticket,
}
use agama_magicblock.Program.Exits.Slots.{
  owed, AreDistinct, owed-open, owed-settle, open-AreDistinct, settle-AreDistinct,
}
use agama_magicblock.Program.Exits.Opening.{Opened, open_exit-Opened}
use agama_magicblock.Program.Exits.Settling.{settle_exit-Pays}
use agama_magicblock.Program.Private.{PrivateAccounts, deposit_private}

pub record Custody : Type 0 where
  pub shielded : Shielded
  pub exits : ExitBook
  pub held : ℕ

-- The amount in the data of a queued payment.
abbrev pub paid_by : Instruction → ℕ
paid_by prev = from_le (slice prev.bytes 1 8)

-- One successful handler, and what its transaction moves: a deposit brings its amount in (as the
-- token transfer in front of it says) and keeps the running total below 2^64, a ticket moves nothing,
-- a settlement pays out what the instruction in front of it says.
pub data Step (loader : Loader) (addresses : Addresses) : Custody → Custody → Type 0 where
  deposited :
      (c : Custody) (a : PrivateAccounts) (transaction : List Instruction) (current : ℕ)
      (depositor : Pubkey) (amount now : ℕ) (position : Position) (after : Shielded)
      → a.shielded ≡ c.shielded
      → c.shielded.total_in + amount < u64_size
      → deposit_private loader addresses a transaction current depositor amount now
        ≡ ok (position, after)
      → Step loader addresses c (record c { shielded = after; held = c.held + amount })
  opened :
      (c : Custody) (a after : RedeemPrivate) (o : ExitOrder) (now : ℕ)
      → a.shielded ≡ c.shielded
      → a.exits ≡ c.exits
      → open_exit loader a o now ≡ ok after
      → Step loader addresses c (record c { shielded = after.shielded; exits = after.exits })
  settled :
      (c : Custody) (a : SettleExit) (transaction : List Instruction) (current id : ℕ)
      (prev : Instruction) (after : ExitBook)
      → a.exits ≡ c.exits
      → get_elem? transaction (current - 1) ≡ some prev
      → settle_exit addresses a transaction current id ≡ ok after
      → Step loader addresses c (record c { exits = after; held = c.held - paid_by prev })

-- Any number of them.
pub data Reaches (loader : Loader) (addresses : Addresses) : Custody → Custody → Type 0 where
  here : (c : Custody) → Reaches loader addresses c c
  step :
      (c d e : Custody)
      → Step loader addresses c d
      → Reaches loader addresses d e
      → Reaches loader addresses c e

-- The books agree with the dollars, a payout is promised only out of what came in, and no two open
-- tickets share an id.
pub record IsSolvent (c : Custody) : Type 0 where
  pub books : c.held + c.shielded.total_out ≡ c.shielded.total_in + owed c.exits.slots
  pub promised : c.shielded.total_out ≤ c.shielded.total_in
  pub total_64bit : c.shielded.total_in < u64_size
  pub distinct : AreDistinct c.exits.slots

module _ (loader : Loader) (addresses : Addresses) where
  deposit_private_inv :
      (a : PrivateAccounts) (transaction : List Instruction) (current : ℕ) (depositor : Pubkey)
      (amount now : ℕ) (position : Position) (after : Shielded)
      → deposit_private loader addresses a transaction current depositor amount now
        ≡ ok (position, after)
      → (after.total_in ≡ saturating_add a.shielded.total_in amount)
        × (after.total_out ≡ a.shielded.total_out)
  unfolding deposit_private
  deposit_private_inv a transaction current depositor amount now position after done = ground arith

  pub open_exit_inv :
      (a after : RedeemPrivate) (o : ExitOrder) (now : ℕ)
      → open_exit loader a o now ≡ ok after
      → (assets : ℕ) × Opened loader a o assets after
  unfolding open_exit
  open_exit_inv a after o now done = elim (Result-cases (read_book loader a.book)) [
    | inr (e, unread) ↦ ground arith
    | inl (book, rb) ↦ elim (Result-cases (nav_for_pricing a.vault book a.shielded)) [
      | inr (e, unpriced) ↦ ground arith
      | inl ((nav, supply), rn) ↦
          let (assets, _, open_ok) =
            open_exit-Opened loader a after o now nav supply book rb rn done in
          (assets, open_ok)
    ]
  ]

  deposit_private-IsSolvent :
      (c : Custody) (amount : ℕ) (after : Shielded)
      → IsSolvent c
      → c.shielded.total_in + amount < u64_size
      → after.total_in ≡ saturating_add c.shielded.total_in amount
      → after.total_out ≡ c.shielded.total_out
      → IsSolvent (record c { shielded = after; held = c.held + amount })
  deposit_private-IsSolvent c amount after s room ins outs =
      let books = s.books in
      let promised = s.promised in
      record {
        books = omega arith;
        promised = omega arith;
        total_64bit = omega arith;
        distinct = s.distinct;
      }

  open_exit-IsSolvent :
      (c : Custody) (a after : RedeemPrivate) (o : ExitOrder) (assets : ℕ)
      → IsSolvent c
      → a.shielded ≡ c.shielded
      → a.exits ≡ c.exits
      → Opened loader a o assets after
      → IsSolvent (record c { shielded = after.shielded; exits = after.exits })
  open_exit-IsSolvent c a after o assets s same_shielded same_exits opened_by =
      elim (Option-cases (find_id 0 a.exits.slots)) [
        | inl full ↦ absurd (opened_by.slot_free full)
        | inr (free, found) ↦
            let books = s.books in
            let promised = s.promised in
            let covered = opened_by.covered in
            let total_in : a.shielded.total_in ≡ c.shielded.total_in =
              ap (λ x. x.total_in) same_shielded in
            let total_out : a.shielded.total_out ≡ c.shielded.total_out =
              ap (λ x. x.total_out) same_shielded in
            let ins : after.shielded.total_in ≡ a.shielded.total_in =
              ap (λ x. x.total_in) opened_by.shielded in
            let outs : after.shielded.total_out ≡ saturating_add a.shielded.total_out assets =
              ap (λ x. x.total_out) opened_by.shielded in
            let more : owed after.exits.slots ≡ owed a.exits.slots + assets =
              ap owed opened_by.slots
              ∙ owed-open (ticket o assets) free a.exits.slots opened_by.id_positive found in
            let before : owed a.exits.slots ≡ owed c.exits.slots =
              ap (λ x. owed x.slots) same_exits in
            let distinct : AreDistinct a.exits.slots = rw same_exits s.distinct in
            record {
              books = omega arith;
              promised = omega arith;
              total_64bit = omega arith;
              distinct =
                  rw (opened_by.slots)
                    (open-AreDistinct (ticket o assets) a.exits.slots distinct opened_by.fresh);
            }
      ]

  settle_exit-IsSolvent :
      (c : Custody) (a : SettleExit) (id : ℕ) (prev : Instruction) (slot : Exit) (after : ExitBook)
      → IsSolvent c
      → a.exits ≡ c.exits
      → 0 < id
      → find_id id a.exits.slots ≡ some slot
      → paid_by prev ≡ slot.assets
      → after.slots ≡ replace_id id free_exit a.exits.slots
      → IsSolvent (record c { exits = after; held = c.held - paid_by prev })
  settle_exit-IsSolvent c a id prev slot after s same positive found paid slots =
      let books = s.books in
      let promised = s.promised in
      let from : find_id id c.exits.slots ≡ some slot = rw (← same) found in
      let to : after.slots ≡ replace_id id free_exit c.exits.slots = rw (← same) slots in
      let less = owed-settle id slot c.exits.slots positive from in
      let owed_after : owed after.slots ≡ owed (replace_id id free_exit c.exits.slots) =
        ap owed to in
      record {
        books = omega arith;
        promised = promised;
        total_64bit = s.total_64bit;
        distinct = rw to (settle-AreDistinct id c.exits.slots s.distinct);
      }

  pub step-IsSolvent : (c d : Custody) → Step loader addresses c d → IsSolvent c → IsSolvent d
  step-IsSolvent _ _
        (deposited c a transaction current depositor amount now position after same room done) s =
      let (ins, outs) =
        deposit_private_inv a transaction current depositor amount now position after done in
      deposit_private-IsSolvent c amount after s room
        (ins ∙ ap (λ x. saturating_add x.total_in amount) same) (outs ∙ ap (λ x. x.total_out) same)
  step-IsSolvent _ _ (opened c a after o now same_shielded same_exits done) s =
      let (assets, opened_by) = open_exit_inv a after o now done in
      open_exit-IsSolvent c a after o assets s same_shielded same_exits opened_by
  step-IsSolvent _ _ (settled c a transaction current id prev after same before done) s =
      let (front, slot, _, positive, _, at, found, pays, slots) =
        settle_exit-Pays addresses a transaction current id after done in
      let same_front : front ≡ prev = some-injective (sym at ∙ before) in
      settle_exit-IsSolvent c a id prev slot after s same positive found
        (ap paid_by (sym same_front) ∙ pays.amount) slots
    where
      some-injective : {x y : Instruction} → Path (Option Instruction) (some x) (some y) → x ≡ y
      some-injective e = cc

  reaches-IsSolvent : (c d : Custody) → Reaches loader addresses c d → IsSolvent c → IsSolvent d
  reaches-IsSolvent _ _ (here c) s = s
  reaches-IsSolvent _ _ (step c e d one more) s =
      reaches-IsSolvent e d more (step-IsSolvent c e one s)

  -- The private custody can always pay: from books that agree with the dollars held, after any
  -- deposits, redemptions and settlements in any order, the dollars held cover all open tickets
  -- together, and the books still agree with them.
  pub reaches_covered :
      (c d : Custody)
      → IsSolvent c
      → Reaches loader addresses c d
      → (owed d.exits.slots ≤ d.held)
        × (d.held + d.shielded.total_out ≡ d.shielded.total_in + owed d.exits.slots)
  reaches_covered c d s way =
      let end = reaches-IsSolvent c d way s in
      let books = end.books in let promised = end.promised in (omega arith, books)
