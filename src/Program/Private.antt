-- ===== src/Program/Private.antt =====
-- Private shares inside the enclave: `deposit_private`, and `sync_position`, which re-marks a
-- position on the public shares that its owner holds.
pub mod Solvency
pub mod Refinement
pub mod Shares
pub mod Marking
use agama_magicblock.Prelude.{ℕ, ◌-◌, List, Option, ok, ◌>>=◌, ◌>>◌, require, ltb, if◌then◌else◌}
use mathlib.Core.Option.{get_or}
use agama_magicblock.Chain.{Pubkey, Instruction}
use agama_magicblock.Program.Machine.{Outcome, saturating_add, zero_amount}
use agama_magicblock.Program.State.{Vault, Position, Shielded}
use agama_magicblock.Program.Pricing.{
  Loader, RawAccount, read_book, nav_for_pricing, shares_for, share_price, blend_entry, mark,
}
use agama_magicblock.Program.Introspect.{previous_instruction, assert_token_transfer}
use agama_magicblock.Program.Access.{assert_may_act}
use agama_magicblock.Program.Exits.{Addresses}

-- The accounts of `DepositPrivate` and of `SyncPosition`.
pub record PrivateAccounts : Type 0 where
  pub signer : Pubkey
  pub position : Position
  pub vault : Vault
  pub book : RawAccount
  pub shielded : Shielded

unfoldable pub deposit_private :
    Loader
    → Addresses
    → PrivateAccounts
    → List Instruction
    → ℕ
    → Pubkey
    → ℕ
    → ℕ
    → Outcome (Position × Shielded)
deposit_private loader addresses a transaction current depositor amount now = do
  require (ltb 0 amount) zero_amount
  assert_may_act a.position a.signer now
  prev ← previous_instruction transaction current
  assert_token_transfer addresses.token_program prev amount
      (addresses.associated_token depositor a.vault.usdc_mint)
      (addresses.associated_token a.shielded.custody_owner a.vault.usdc_mint) depositor
  book ← read_book loader a.book
  (nav, supply) ← nav_for_pricing a.vault book a.shielded
  shares ← shares_for amount nav supply
  price ← share_price nav supply
  blended ← blend_entry a.position shares price
  position ←
      mark (record blended { private_shares = saturating_add blended.private_shares shares }) price
        now
  ok (
    position,
    record a.shielded {
      shares = saturating_add a.shielded.shares shares;
      total_in = saturating_add a.shielded.total_in amount;
    },
  )

-- `held` is the owner's agYLD balance; an owner without such an account holds nothing.
unfoldable pub sync_position : Loader → PrivateAccounts → Option ℕ → ℕ → Outcome Position
sync_position loader a owner_agyld now = do
  assert_may_act a.position a.signer now
  book ← read_book loader a.book
  (nav, supply) ← nav_for_pricing a.vault book a.shielded
  price ← share_price nav supply
  let held = get_or owner_agyld 0
  blended ←
      (if ltb a.position.shares held
        then blend_entry a.position (held - a.position.shares) price
        else ok a.position)
  mark (record blended { shares = held }) price now
