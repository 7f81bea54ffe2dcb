-- ===== src/Program/Exits.antt =====
-- Private redemptions: `open_exit`, the shared body of `redeem_private` and `redeem_private_to`,
-- and `settle_exit`, which closes a ticket that the custody pays in the same transaction.
pub mod Slots
pub mod Lookup
pub mod Opening
pub mod Settling
use agama_magicblock.Prelude.{
  ℕ, ◌+◌, ◌-◌, ◌*◌, Bool, true, false, not, ◌&&◌, ◌||◌, List, [], ◌∷◌, Option, none, some, ok, err,
  ◌>>=◌, ◌>>◌, require, ok_or, ltb, leb, ◌==◌, if◌then◌else◌, length,
}
use agama_magicblock.Chain.{Pubkey, Instruction, default_key}
use agama_magicblock.Chain.Bytes.{from_le, slice}
use agama_magicblock.Program.Machine.{
  Outcome, saturating_add, saturating_sub, zero_amount, bad_exit_params, insufficient_shares,
  dust_deposit, insufficient_liquidity, exit_book_full, unauthorized, unknown_exit,
  payment_mismatch,
}
use agama_magicblock.Program.State.{
  Vault, Position, Shielded, Exit, ExitBook, free_exit, max_exit_delay_ms,
}
use agama_magicblock.Program.Pricing.{
  Loader, RawAccount, read_book, nav_for_pricing, assets_for, share_price, mark,
}
use agama_magicblock.Program.Introspect.{previous_instruction, key_at, signs_at, byte_at}
use agama_magicblock.Program.Access.{assert_may_act}

-- The accounts of `RedeemPrivate`.
pub record RedeemPrivate : Type 0 where
  pub position : Position
  pub vault : Vault
  pub book : RawAccount
  pub shielded : Shielded
  pub exits : ExitBook

-- What the caller asks of a redemption.
pub record ExitOrder : Type 0 where
  pub shares : ℕ
  pub group_id : ℕ
  pub min_delay_ms : ℕ
  pub max_delay_ms : ℕ
  pub split : ℕ
  pub destination : Pubkey

-- `slots.iter().any(|e| e.group_id == id)`.
unfoldable pub has_id : ℕ → List Exit → Bool
has_id id [] = false
has_id id (e ∷ es) = e.group_id == id || has_id id es

-- `slots.iter_mut().find(|e| e.group_id == id)`, and a write through the reference.
unfoldable pub find_id : ℕ → List Exit → Option Exit
find_id id [] = none
find_id id (e ∷ es) = if e.group_id == id then some e else find_id id es

unfoldable pub replace_id : ℕ → Exit → List Exit → List Exit
replace_id id new [] = []
replace_id id new (e ∷ es) = if e.group_id == id then new ∷ es else e ∷ replace_id id new es

abbrev pub ticket : ExitOrder → ℕ → Exit
ticket o assets = record {
  owner = o.destination;
  assets = assets;
  min_delay_ms = o.min_delay_ms;
  max_delay_ms = o.max_delay_ms;
  group_id = o.group_id;
  split = o.split;
}

unfoldable pub open_exit : Loader → RedeemPrivate → ExitOrder → ℕ → Outcome RedeemPrivate
open_exit loader a o now = do
  require (ltb 0 o.shares) zero_amount
  require (ltb 0 o.group_id && leb o.group_id 0xff_ffff) bad_exit_params
  require
      (ltb 0 o.split && (leb o.min_delay_ms o.max_delay_ms && leb o.max_delay_ms max_exit_delay_ms))
      bad_exit_params
  require (leb o.shares a.position.private_shares) insufficient_shares
  book ← read_book loader a.book
  (nav, supply) ← nav_for_pricing a.vault book a.shielded
  assets ← assets_for o.shares nav supply
  require (ltb 0 assets) dust_deposit
  let held = saturating_sub a.shielded.total_in a.shielded.total_out
  require (leb assets held) insufficient_liquidity
  price ← share_price nav supply
  require (not (has_id o.group_id a.exits.slots)) bad_exit_params
  ok_or (find_id 0 a.exits.slots) exit_book_full >>= λ _. do
    let burned = record a.position { private_shares = a.position.private_shares - o.shares }
    position ← mark burned price now
    ok (record a {
      position = position;
      shielded = record a.shielded {
        shares = saturating_sub a.shielded.shares o.shares;
        total_out = saturating_add a.shielded.total_out assets;
      };
      exits = record a.exits { slots = replace_id 0 (ticket o assets) a.exits.slots };
    })

-- The owner's wallet or its session key redeems to the owner.
unfoldable pub redeem_private :
    Loader → RedeemPrivate → Pubkey → ExitOrder → ℕ → Outcome RedeemPrivate
redeem_private loader a signer o now = do
  assert_may_act a.position signer now
  open_exit loader a (record o { destination = a.position.owner }) now

-- The owner alone redeems to a wallet of its choice.
unfoldable pub redeem_private_to :
    Loader → RedeemPrivate → Pubkey → ExitOrder → ℕ → Outcome RedeemPrivate
redeem_private_to loader a signer o now = do
  require (signer == a.position.owner) unauthorized
  require (not (o.destination == default_key)) bad_exit_params
  open_exit loader a o now

-- The accounts of `SettleExit`.
pub record SettleExit : Type 0 where
  pub authority : Pubkey
  pub vault : Vault
  pub shielded : Shielded
  pub exits : ExitBook

-- Addresses that the program takes from its dependencies.
pub record Addresses : Type 0 where
  pub token_program : Pubkey
  pub espl_program : Pubkey
  pub ed25519_program : Pubkey
  pub associated_token : (owner mint : Pubkey) → Pubkey
  pub to_bytes : Pubkey → List ℕ

-- The data of the instruction in front says the payment of this ticket.
unfoldable pub pays_amounts : List ℕ → Exit → Bool
pays_amounts d slot =
    from_le (slice d 1 8) == slot.assets
    && (from_le (byte_at d 9 ∷ byte_at d 10 ∷ byte_at d 11 ∷ 0 ∷ []) == slot.group_id
        && (from_le (slice d 12 8) == slot.min_delay_ms
            && (from_le (slice d 20 8) == slot.max_delay_ms
                && from_le (slice d 28 4) == slot.split)))

-- Its accounts move the dollars from the custody to the ticket's owner, signed by the custody.
unfoldable pub pays_accounts : Addresses → Instruction → Pubkey → Pubkey → Exit → Bool
pays_accounts addresses prev usdc custody_owner slot =
    key_at prev.keys 2 == usdc
    && (key_at prev.keys 3 == addresses.associated_token custody_owner usdc
        && (key_at prev.keys 5 == slot.owner
            && (key_at prev.keys 6 == custody_owner && signs_at prev.keys 6)))

-- `0 < group_id` stands for `group_id != 0`.
unfoldable pub settle_exit : Addresses → SettleExit → List Instruction → ℕ → ℕ → Outcome ExitBook
settle_exit addresses a transaction current group_id = do
  require (a.authority == a.vault.authority) unauthorized
  prev ← previous_instruction transaction current
  slot ← ok_or (if ltb 0 group_id then find_id group_id a.exits.slots else none) unknown_exit
  require (prev.program_id == addresses.espl_program) payment_mismatch
  require (leb 32 (length prev.bytes) && byte_at prev.bytes 0 == 16) payment_mismatch
  require (pays_amounts prev.bytes slot) payment_mismatch
  require (leb 7 (length prev.keys)) payment_mismatch
  require (pays_accounts addresses prev a.vault.usdc_mint a.shielded.custody_owner slot)
      payment_mismatch
  ok (record a.exits { slots = replace_id group_id free_exit a.exits.slots })
