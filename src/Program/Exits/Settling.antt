-- ===== src/Program/Exits/Settling.antt =====
-- What closing a ticket proves about the transaction it is closed in.
use agama_magicblock.Prelude.{
  ℕ, ◌+◌, ◌-◌, ◌*◌, ◌<◌, ◌≡◌, Bool, true, List, [], ◌∷◌, some, arith, ok, Result-cases, inl, inr,
  ◌==◌, leb, get_elem?, length, Option-cases, &&_inv, eq_of_test, ◌&&◌, ◌≢◌, ap,
}
use agama_magicblock.Chain.{Instruction}
use agama_magicblock.Chain.Bytes.{from_le, slice}
use agama_magicblock.Program.State.{Exit, ExitBook, free_exit}
use agama_magicblock.Program.Introspect.{previous_instruction, key_at, signs_at, byte_at}
use agama_magicblock.Program.Exits.{
  SettleExit, Addresses, find_id, has_id, replace_id, pays_amounts, pays_accounts, settle_exit,
}
use agama_magicblock.Program.Exits.Slots.{AreDistinct, has_id-settled, find_id-has_id}

-- The instruction is the queued payment of this ticket: MagicBlock's program, the ticket's amount,
-- id, delays and split, out of the custody's account, to the ticket's owner, signed by the custody.
pub record Pays (addresses : Addresses) (a : SettleExit) (prev : Instruction) (slot : Exit)
    : Type 0 where
  pub program : prev.program_id ≡ addresses.espl_program
  pub kind : byte_at prev.bytes 0 ≡ 16
  pub amount : from_le (slice prev.bytes 1 8) ≡ slot.assets
  pub group :
      byte_at prev.bytes 9 + 256 * byte_at prev.bytes 10 + 65536 * byte_at prev.bytes 11
      ≡ slot.group_id
  pub min_delay : from_le (slice prev.bytes 12 8) ≡ slot.min_delay_ms
  pub max_delay : from_le (slice prev.bytes 20 8) ≡ slot.max_delay_ms
  pub split : from_le (slice prev.bytes 28 4) ≡ slot.split
  pub mint : key_at prev.keys 2 ≡ a.vault.usdc_mint
  pub source :
      key_at prev.keys 3 ≡ addresses.associated_token a.shielded.custody_owner a.vault.usdc_mint
  pub destination : key_at prev.keys 5 ≡ slot.owner
  pub custody : key_at prev.keys 6 ≡ a.shielded.custody_owner
  pub signed : signs_at prev.keys 6 ≡ true

-- The code's own test of the instruction, as one Boolean.
abbrev pub is_payment : Addresses → SettleExit → Instruction → Exit → Bool
is_payment addresses a prev slot =
    prev.program_id == addresses.espl_program
    && (leb 32 (length prev.bytes)
        && (byte_at prev.bytes 0 == 16
            && (pays_amounts prev.bytes slot
                && (leb 7 (length prev.keys)
                    && pays_accounts addresses prev a.vault.usdc_mint a.shielded.custody_owner
                        slot))))

group_lem :
    (x y z id : ℕ) → (from_le (x ∷ y ∷ z ∷ 0 ∷ []) == id) ≡ true → x + 256 * y + 65536 * z ≡ id
group_lem x y z id h = omega (arith, eq_of_test _ _ h)

is_payment-Pays :
    (addresses : Addresses) (a : SettleExit) (prev : Instruction) (slot : Exit)
    → is_payment addresses a prev slot ≡ true
    → Pays addresses a prev slot
unfolding pays_amounts pays_accounts
is_payment-Pays addresses a prev slot h =
    let (program, h₁) = &&_inv _ _ h in
    let (_, h₂) = &&_inv _ _ h₁ in
    let (kind, h₃) = &&_inv _ _ h₂ in
    let (amounts, h₄) = &&_inv _ _ h₃ in
    let (_, accounts) = &&_inv _ _ h₄ in
    let (amount, a₁) = &&_inv _ _ amounts in
    let (group, a₂) = &&_inv _ _ a₁ in
    let (min_delay, a₃) = &&_inv _ _ a₂ in
    let (max_delay, split) = &&_inv _ _ a₃ in
    let (mint, k₁) = &&_inv _ _ accounts in
    let (source, k₂) = &&_inv _ _ k₁ in
    let (destination, k₃) = &&_inv _ _ k₂ in
    let (custody, signed) = &&_inv _ _ k₃ in
    record {
      program = eq_of_test _ _ program;
      kind = eq_of_test _ _ kind;
      amount = eq_of_test _ _ amount;
      group = group_lem _ _ _ _ group;
      min_delay = eq_of_test _ _ min_delay;
      max_delay = eq_of_test _ _ max_delay;
      split = eq_of_test _ _ split;
      mint = eq_of_test _ _ mint;
      source = eq_of_test _ _ source;
      destination = eq_of_test _ _ destination;
      custody = eq_of_test _ _ custody;
      signed = signed;
    }

settle_exit_step :
    (addresses : Addresses) (a : SettleExit) (transaction : List Instruction) (current id : ℕ)
    (prev : Instruction) (slot : Exit) (after : ExitBook)
    → previous_instruction transaction current ≡ ok prev
    → find_id id a.exits.slots ≡ some slot
    → settle_exit addresses a transaction current id ≡ ok after
    → (a.authority ≡ a.vault.authority)
      × (0 < id)
      × (is_payment addresses a prev slot ≡ true)
      × (after.slots ≡ replace_id id free_exit a.exits.slots)
unfolding settle_exit
settle_exit_step addresses a transaction current id prev slot after before found done = ground arith

previous_instruction_inv :
    (transaction : List Instruction) (current : ℕ) (prev : Instruction)
    → previous_instruction transaction current ≡ ok prev
    → (0 < current) × (get_elem? transaction (current - 1) ≡ some prev)
unfolding previous_instruction
previous_instruction_inv transaction current prev h = ground arith

-- A ticket is closed only by the vault's authority, only while it is open, and only in a transaction
-- whose instruction in front is exactly its payment; and then that slot alone is freed.
pub settle_exit-Pays :
    (addresses : Addresses) (a : SettleExit) (transaction : List Instruction) (current id : ℕ)
    (after : ExitBook)
    → settle_exit addresses a transaction current id ≡ ok after
    → (prev : Instruction) × (slot : Exit) × (a.authority ≡ a.vault.authority)
      × (0 < id)
      × (0 < current)
      × (get_elem? transaction (current - 1) ≡ some prev)
      × (find_id id a.exits.slots ≡ some slot)
      × Pays addresses a prev slot
      × (after.slots ≡ replace_id id free_exit a.exits.slots)
unfolding settle_exit
settle_exit-Pays addresses a transaction current id after done =
    elim (Result-cases (previous_instruction transaction current)) [
      | inr (e, none_before) ↦ ground arith
      | inl (prev, before) ↦ elim (Option-cases (find_id id a.exits.slots)) [
        | inl missing ↦ ground arith
        | inr (slot, found) ↦
            let (authority, positive, payment, slots) =
              settle_exit_step addresses a transaction current id prev slot after before found
                done in
            let (inside, at) = previous_instruction_inv transaction current prev before in
            (
              prev,
              slot,
              authority,
              positive,
              inside,
              at,
              found,
              is_payment-Pays addresses a prev slot payment,
              slots,
            )
      ]
    ]

-- A ticket is paid once: with distinct ids, closing the ticket a second time is refused, whatever
-- the second transaction holds.
pub settle_exit_once :
    (addresses : Addresses) (a : SettleExit) (transaction later : List Instruction)
    (current place id : ℕ) (after end : ExitBook)
    → AreDistinct a.exits.slots
    → settle_exit addresses a transaction current id ≡ ok after
    → settle_exit addresses (record a { exits = after }) later place id ≢ ok end
settle_exit_once addresses a transaction later current place id after end distinct first second =
    let (_, _, _, positive, _, _, _, _, slots) =
      settle_exit-Pays addresses a transaction current id after first in
    let (_, slot, _, _, _, _, found, _, _) =
      settle_exit-Pays addresses (record a { exits = after }) later place id end second in
    let gone = has_id-settled id a.exits.slots positive distinct in
    let open_still = find_id-has_id id slot after.slots found in
    ground (arith, gone, open_still, ap (has_id id) slots)
