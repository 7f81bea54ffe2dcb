-- ===== src/Tests/Accounts.antt =====
-- A second claim at the faucet, a migrated book, and two trades.
use agama_magicblock.Prelude.{ℕ, ◌+◌, ◌*◌, ◌≤◌, ◌≡◌, refl, [], ◌∷◌, ok, arith}
use agama_magicblock.Program.State.{PoolBook, Vault, Shielded}
use agama_magicblock.Program.Pricing.{nav_for_pricing}
use agama_magicblock.Program.Book.{tick}
use agama_magicblock.Program.Vault.{
  Effect, redeem, burn, transfer_checked, mint_to, user_agyld, user_usdc, vault_usdc, vault_pda,
  user,
}
use agama_magicblock.Program.Pricing.{read_book, read_shielded, assets_for}
use agama_magicblock.Program.Vault.Rates.{PriceLe}
use agama_magicblock.Program.Vault.Trading.{Trades, trading, closed, bought, sold, Trades-PriceLe}
use agama_magicblock.Program.Accounts.{FaucetClaim, faucet, migrate_book}
use agama_magicblock.Program.Accounts.Faucet.{start, again, Claims-faucet_cooldown_s}
use agama_magicblock.Program.Accounts.Migration.{relinked, migrate_book-tick}
use agama_magicblock.Tests.Fixtures.{a_book, a_vault, a_shielded, an_account, a_loader}
use agama_magicblock.Tests.Books.{deposited, deposits, a_book-read, a_shielded-read, a_price}

abbrev claimed_at : ℕ → FaucetClaim
claimed_at now = record { owner = 40; last_ts = now }

claims_again :
    faucet (claimed_at 1_000) 40 1_060
    ≡ ok (claimed_at 1_060, mint_to user_usdc vault_pda 1_000_000_000 ∷ [])
unfolding faucet
claims_again = refl

Claims-faucet_cooldown_s_example : 1_000 + 1 * 60 ≤ 1_060
Claims-faucet_cooldown_s_example =
    Claims-faucet_cooldown_s 40 (claimed_at 1_000) (claimed_at 1_060) 1 (omega arith) (
      again (claimed_at 1_000) (claimed_at 1_000) (claimed_at 1_060) 0 1_060 _
        (start (claimed_at 1_000)) claims_again)

abbrev migrated : PoolBook
migrated = record a_book { vault = 11 }

migrates : migrate_book a_loader 11 a_vault 7 an_account ≡ ok migrated
unfolding migrate_book read_book
migrates = refl

migrate_book-tick_example :
    ((v : Vault) (shielded : Shielded)
      → nav_for_pricing v migrated shielded ≡ nav_for_pricing v a_book shielded)
    × ((now : ℕ) (ticked : PoolBook)
        → tick now a_book ≡ ok ticked
        → tick now migrated ≡ ok (relinked 11 7 ticked))
migrate_book-tick_example =
    migrate_book-tick a_loader 11 a_vault 7 an_account a_book migrated a_book-read migrates

-- A dollar in, and a million shares out.
abbrev sold_after : Effect
sold_after = record {
  vault = record (deposited.vault) { shares = 5_999_865_384; total_out = 1_155_555 };
  calls =
      burn user_agyld user 1_000_000
      ∷ transfer_checked vault_usdc user_usdc vault_pda 1_155_555 6
      ∷ [];
  event = record { user = 40; assets = 1_155_555; shares = 1_000_000; nav = 10_401_000_000 };
}

sells_after :
    redeem a_loader deposited.vault an_account an_account 7_000_000_000 40 1_000_000 ≡ ok sold_after
unfolding redeem read_book read_shielded nav_for_pricing assets_for
sells_after = refl

trades : Trades a_loader an_account an_account a_book a_shielded a_vault sold_after.vault
trades =
    trading a_vault deposited.vault sold_after.vault
      (bought a_vault 40 1_000_000 deposited deposits (omega arith) (omega arith))
      (trading deposited.vault sold_after.vault sold_after.vault
        (sold deposited.vault 7_000_000_000 40 1_000_000 sold_after sells_after (omega arith)
          (omega arith) (omega arith))
        (closed sold_after.vault))

Trades-PriceLe_example :
    (nav supply : ℕ) × (nav_for_pricing sold_after.vault a_book a_shielded ≡ ok (nav, supply))
    × PriceLe 10_400_000_000 9_000_000_000 nav supply
Trades-PriceLe_example =
    Trades-PriceLe a_loader an_account an_account a_book a_shielded a_book-read a_shielded-read
      a_vault sold_after.vault 10_400_000_000 9_000_000_000 a_price (omega arith) trades
