-- ===== src/Program/Private/Refinement.antt =====
-- What the private custody promises, without its slots, its shares or its counters: a finite map of the
-- tickets it owes, and the dollars it holds.
use agama_magicblock.Prelude.{
  ℕ, ◌+◌, ◌-◌, ◌≤◌, ◌<◌, ◌≡◌, Option, none, some, refl, ap, sym, ◌∙◌, inl, inr, Option-cases, arith,
}
use agama_magicblock.Chain.{Instruction}
use agama_magicblock.Program.State.{Exit, ExitBook, free_exit}
use agama_magicblock.Program.Pricing.{Loader}
use agama_magicblock.Program.Exits.{
  Addresses, RedeemPrivate, ExitOrder, SettleExit, find_id, replace_id, ticket,
}
use agama_magicblock.Program.Exits.Slots.{find_id-group_id, owed-settle}
use agama_magicblock.Program.Exits.Lookup.{
  lookup, insert, remove, lookup-insert, lookup-remove, find_id_missing,
}
use agama_magicblock.Program.Exits.Opening.{Opened}
use agama_magicblock.Program.Exits.Settling.{settle_exit-Pays}
use agama_magicblock.Program.Private.Solvency.{
  Custody, Step, deposited, opened, settled, Reaches, here, step, IsSolvent, paid_by, open_exit_inv,
  step-IsSolvent,
}

pub record Ledger : Type 0 where
  pub tickets : ℕ → Option Exit
  pub held : ℕ

-- The abstract steps: dollars arrive, a ticket with a new id is promised, and a ticket is kept by
-- paying exactly what it says.
pub data Promise : Ledger → Ledger → Type 0 where
  received :
      (l m : Ledger) (amount : ℕ) → m.tickets ≡ l.tickets → m.held ≡ l.held + amount → Promise l m
  promised :
      (l m : Ledger) (t : Exit)
      → 0 < t.group_id
      → l.tickets t.group_id ≡ none
      → m.tickets ≡ insert t l.tickets
      → m.held ≡ l.held
      → Promise l m
  kept :
      (l m : Ledger) (t : Exit)
      → l.tickets t.group_id ≡ some t
      → t.assets ≤ l.held
      → m.tickets ≡ remove t.group_id l.tickets
      → m.held ≡ l.held - t.assets
      → Promise l m

pub data Promises : Ledger → Ledger → Type 0 where
  done : (l : Ledger) → Promises l l
  more : (l m n : Ledger) → Promise l m → Promises m n → Promises l n

abbrev pub ledger_of : Custody → Ledger
ledger_of c = record { tickets = lookup c.exits.slots; held = c.held }

module _ (loader : Loader) (addresses : Addresses) where
  Opened-Promise :
      (c : Custody) (a after : RedeemPrivate) (o : ExitOrder) (assets : ℕ)
      → a.exits ≡ c.exits
      → Opened loader a o assets after
      → Promise
          (ledger_of c)
          (ledger_of (record c { shielded = after.shielded; exits = after.exits }))
  Opened-Promise c a after o assets same by = elim (Option-cases (find_id 0 a.exits.slots)) [
    | inl full ↦ absurd (by.slot_free full)
    | inr (free, found) ↦
        let slots : a.exits.slots ≡ c.exits.slots = ap (λ x. x.slots) same in
        let fresh = by.fresh in
        let new = lookup-insert (ticket o assets) free a.exits.slots by.id_positive fresh found in
        let missing = find_id_missing o.group_id a.exits.slots fresh in
        promised _ _ (ticket o assets) by.id_positive
          (ground (arith, ap (λ x. find_id o.group_id x) slots))
          (ap lookup by.slots ∙ new ∙ ap (λ x. insert (ticket o assets) (lookup x)) slots) refl
  ]

  settled-Promise :
      (c : Custody) (a : SettleExit) (id : ℕ) (prev : Instruction) (slot : Exit) (after : ExitBook)
      → IsSolvent c
      → a.exits ≡ c.exits
      → 0 < id
      → find_id id a.exits.slots ≡ some slot
      → paid_by prev ≡ slot.assets
      → after.slots ≡ replace_id id free_exit a.exits.slots
      → Promise (ledger_of c) (ledger_of (record c { exits = after; held = c.held - paid_by prev }))
  settled-Promise c a id prev slot after s same positive found paid slots =
      let from : find_id id c.exits.slots ≡ some slot = rw (← same) found in
      let to : after.slots ≡ replace_id id free_exit c.exits.slots = rw (← same) slots in
      let gone = lookup-remove id c.exits.slots positive s.distinct in
      let its_id : slot.group_id ≡ id = find_id-group_id id slot c.exits.slots from in
      let books = s.books in
      let promised_out = s.promised in
      let owed_less = owed-settle id slot c.exits.slots positive from in
      kept _ _ slot (ground (arith, from, its_id, positive)) (omega arith)
        (ap lookup to ∙ gone ∙ ap (λ x. remove x (lookup c.exits.slots)) (sym its_id))
        (ap (λ x. c.held - x) paid)

  Step-Promise :
      (c d : Custody)
      → IsSolvent c
      → Step loader addresses c d
      → Promise (ledger_of c) (ledger_of d)
  Step-Promise _ _ s
        (deposited c a transaction current depositor amount now position after same room did) =
      received _ _ amount refl refl
  Step-Promise _ _ s (opened c a after o now same_shielded same_exits did) =
      let (assets, by) = open_exit_inv loader addresses a after o now did in
      Opened-Promise c a after o assets same_exits by
  Step-Promise _ _ s (settled c a transaction current id prev after same before did) =
      let (front, slot, _, positive, _, at, found, pays, slots) =
        settle_exit-Pays addresses a transaction current id after did in
      let same_front : front ≡ prev = some_injective (sym at ∙ before) in
      settled-Promise c a id prev slot after s same positive found
        (ap paid_by (sym same_front) ∙ pays.amount) slots
    where
      some_injective : {x y : Instruction} → Path (Option Instruction) (some x) (some y) → x ≡ y
      some_injective e = cc

  -- The private custody implements its promises: from a solvent state, whatever sequence of deposits,
  -- opened tickets and settlements the handlers accept is a sequence of abstract steps between the
  -- ledgers of its states, each ticket promised under a new id and kept by paying what it says.
  pub Reaches-Promises :
      (c d : Custody)
      → IsSolvent c
      → Reaches loader addresses c d
      → Promises (ledger_of c) (ledger_of d)
  Reaches-Promises _ _ s (here c) = done (ledger_of c)
  Reaches-Promises _ _ s (step c e d one rest) =
      more _ (ledger_of e) _ (Step-Promise c e s one)
        (Reaches-Promises e d (step-IsSolvent loader addresses c e one s) rest)
