-- ===== src/Program/Vault.antt =====
-- The public custody on Solana: `initialize`, `deposit` and `redeem`. The token movements are calls
-- of SPL Token, which is not part of the program: a handler lists the calls that it makes, in order,
-- and the network reverts the whole transaction if one of them is refused.
pub mod Rates
pub mod Price
pub mod Trading
use agama_magicblock.Prelude.{ℕ, List, [], ◌∷◌, ok, ◌>>=◌, ◌>>◌, require, ltb, leb}
use agama_magicblock.Chain.{Pubkey}
use agama_magicblock.Program.Machine.{
  Outcome, saturating_add, saturating_sub, zero_amount, insufficient_shares, insufficient_liquidity,
}
use agama_magicblock.Program.State.{Vault}
use agama_magicblock.Program.Pricing.{
  Loader, RawAccount, read_book, read_shielded, nav_for_pricing, shares_for, assets_for,
}

-- The token accounts of a deposit or a redemption, and who signs for a movement.
pub data Holder : Type 0 where
  user_usdc vault_usdc user_agyld : Holder

pub data Signer : Type 0 where
  user vault_pda : Signer

pub data TokenCall : Type 0 where
  transfer_checked : (from to : Holder) (authority : Signer) (amount decimals : ℕ) → TokenCall
  mint_to : (to : Holder) (authority : Signer) (amount : ℕ) → TokenCall
  burn : (from : Holder) (authority : Signer) (amount : ℕ) → TokenCall

-- The `Deposited` and `Redeemed` events.
pub record Flow : Type 0 where
  pub user : Pubkey
  pub assets : ℕ
  pub shares : ℕ
  pub nav : ℕ

-- What a handler of the vault leaves behind.
pub record Effect : Type 0 where
  pub vault : Vault
  pub calls : List TokenCall
  pub event : Flow

abbrev pub decimals : ℕ
decimals = 6

unfoldable pub initialize : Pubkey → Pubkey → Pubkey → Vault
initialize payer usdc_mint agyld_mint = record {
  authority = payer;
  usdc_mint = usdc_mint;
  agyld_mint = agyld_mint;
  shares = 0;
  total_in = 0;
  total_out = 0;
}

unfoldable pub deposit : Loader → Vault → RawAccount → RawAccount → Pubkey → ℕ → Outcome Effect
deposit loader vault book_info shielded_info payer amount = do
  require (ltb 0 amount) zero_amount
  book ← read_book loader book_info
  shielded ← read_shielded loader shielded_info
  (nav, supply) ← nav_for_pricing vault book shielded
  shares ← shares_for amount nav supply
  ok (record {
    vault = record vault {
      shares = saturating_add vault.shares shares;
      total_in = saturating_add vault.total_in amount;
    };
    calls =
        transfer_checked user_usdc vault_usdc user amount decimals
        ∷ mint_to user_agyld vault_pda shares
        ∷ [];
    event = record { user = payer; assets = amount; shares = shares; nav = nav };
  })

-- `held` is what the vault's USDC account holds.
unfoldable pub redeem : Loader → Vault → RawAccount → RawAccount → ℕ → Pubkey → ℕ → Outcome Effect
redeem loader vault book_info shielded_info held payer shares = do
  require (ltb 0 shares) zero_amount
  book ← read_book loader book_info
  shielded ← read_shielded loader shielded_info
  (nav, supply) ← nav_for_pricing vault book shielded
  require (leb shares vault.shares) insufficient_shares
  assets ← assets_for shares nav supply
  require (leb assets held) insufficient_liquidity
  ok (record {
    vault = record vault {
      shares = saturating_sub vault.shares shares;
      total_out = saturating_add vault.total_out assets;
    };
    calls =
        burn user_agyld user shares
        ∷ transfer_checked vault_usdc user_usdc vault_pda assets decimals
        ∷ [];
    event = record { user = payer; assets = assets; shares = shares; nav = nav };
  })
