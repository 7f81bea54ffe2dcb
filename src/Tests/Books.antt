-- ===== src/Tests/Books.antt =====
-- The book and the vault at concrete amounts.
use agama_magicblock.Prelude.{ℕ, ◌+◌, ◌-◌, ◌≤◌, ◌<◌, ◌⊎◌, ◌≡◌, refl, map, [], ◌∷◌, ok, arith}
use agama_magicblock.Program.State.{Vault, Shielded, PoolEntry, PoolBook}
use agama_magicblock.Program.Book.{tick, absorb, accrue, pay_out, marked_value, take_in}
use agama_magicblock.Program.Book.Accrual.{
  Fits, with_yield, accrued_sum, tick_lem, tick_replay, tick_rewinds, tick_catch_up,
}
use agama_magicblock.Program.Book.Absorb.{absorb_pricing, worth, owed}
use agama_magicblock.Program.Pricing.{
  read_book, read_shielded, nav_for_pricing, shares_for, assets_for,
}
use agama_magicblock.Program.Vault.{
  Effect, deposit, redeem, transfer_checked, mint_to, burn, user_usdc, vault_usdc, user_agyld, user,
  vault_pda, decimals,
}
use agama_magicblock.Program.Vault.Rates.{PriceLe, no_gain}
use agama_magicblock.Program.Vault.Price.{deposit-PriceLe, redeem-PriceLe}
use agama_magicblock.Client.Net.{called}
use agama_magicblock.Client.Keeper.{absorb_flows}
use agama_magicblock.Client.Keeper.Absorption.{Reads, absorb_call, absorb_flows-absorb}
use agama_magicblock.Tests.Fixtures.{
  a_book, a_vault, a_shielded, an_account, a_loader, an_env, a_world, a_connection,
}

-- One year on.
abbrev later : ℕ
later = 31_537_000

a_book-Fits : Fits 31_536_000 a_book.pools
a_book-Fits = (
  omega arith,
  omega arith,
  (omega arith, omega arith, (omega arith, omega arith, (omega arith, omega arith, tt))),
)

a_years_tick :
    tick later a_book
    ≡ ok (record a_book {
      pools = with_yield 31_536_000 a_book.pools;
      nav = 10_908_000_000;
      last_ts = later;
      ticks = 6;
    })
a_years_tick = tick_lem later a_book (omega arith) a_book-Fits

-- The book after a year's tick.
abbrev ticked : PoolBook
ticked = record a_book {
  pools = with_yield 31_536_000 a_book.pools;
  nav = 10_908_000_000;
  last_ts = later;
  ticks = 6;
}

ticks_again : tick later ticked ≡ ok (record ticked { ticks = 7 })
ticks_again = tick_replay later a_book ticked (tick_lem later a_book (omega arith) a_book-Fits)

tick_rewinds_example :
    (after : PoolBook) × (tick 500 a_book ≡ ok after)
    × (after.pools ≡ a_book.pools)
    × (after.last_ts ≡ 500)
    × ((end : PoolBook) × (tick 31_536_500 after ≡ ok end)
        × (end.pools ≡ with_yield 31_536_000 a_book.pools))
tick_rewinds_example = tick_rewinds 500 31_536_500 a_book (omega arith) (omega arith) a_book-Fits

tick_catch_up_example :
    (mid : PoolBook) × (both : PoolBook) × (one : PoolBook) × (tick 2_000 a_book ≡ ok mid)
    × (tick later mid ≡ ok both)
    × (tick later a_book ≡ ok one)
    × (accrued_sum both.pools ≤ accrued_sum one.pools)
    × (accrued_sum one.pools ≤ accrued_sum both.pools + 4)
tick_catch_up_example = tick_catch_up 2_000 later a_book (omega arith) (omega arith) a_book-Fits

absorb_pricing_example :
    (before : PoolBook) × (after : PoolBook) × (tick later a_book ≡ ok before)
    × (absorb 7 later 400_000_000 100_000_000 a_book ≡ ok after)
    × (nav_for_pricing a_vault before a_shielded
        ≡ ok
            (worth later a_book a_vault a_shielded - owed a_book a_vault a_shielded, 9_000_000_000))
    × (nav_for_pricing a_vault after a_shielded
        ≡ ok
            (worth later a_book a_vault a_shielded - owed a_book a_vault a_shielded, 9_000_000_000))
absorb_pricing_example =
    absorb_pricing later 400_000_000 100_000_000 a_book a_vault a_shielded (omega arith) refl
      a_book-Fits (omega arith) (omega arith) (omega arith) (omega arith) (omega arith)

abbrev thinned : ℕ → PoolEntry → PoolEntry
thinned principal p = record p { principal = principal; accrued = 10; apr_bps = 0 }

-- Four pools with 25 of principal and 10 of yield each, whose vault has paid out 120 of the 140.
abbrev thin : PoolBook
thin = record a_book { pools = map (thinned 25) a_book.pools; nav = 140; marked_in = 100 }

abbrev paying : Vault
paying = record a_vault { shares = 100; total_in = 100; total_out = 120 }

abbrev no_shielded : Shielded
no_shielded = record a_shielded { shares = 0; total_in = 0; total_out = 0 }

thin_price : nav_for_pricing paying thin no_shielded ≡ ok (20, 100)
unfolding nav_for_pricing
thin_price = refl

-- Absorbed, the 20 that no principal covers are counted once more.
abbrev absorbed : PoolBook
absorbed = record thin {
  pools = map (thinned 0) a_book.pools;
  nav = 40;
  marked_out = 120;
  last_ts = later;
}

absorbs_thin : absorb 7 later 0 120 thin ≡ ok absorbed
unfolding absorb accrue pay_out marked_value take_in
absorbs_thin = refl

absorbed_price : nav_for_pricing paying absorbed no_shielded ≡ ok (40, 100)
unfolding nav_for_pricing
absorbed_price = refl

-- What the keeper reads of a vault with a dollar and more to absorb.
a_vault-Reads : Reads an_env a_world a_vault a_book a_shielded
a_vault-Reads = record { vault_read = refl; book_read = refl; shielded_read = refl }

absorb_flows-absorb_example :
    ((absorb_flows an_env a_world).1.log
      ≡ called a_connection (absorb_call an_env 500_000_000 100_000_000) ∷ [])
    × ((before : PoolBook) × (after : PoolBook) × (tick later a_book ≡ ok before)
        × (absorb 7 later 500_000_000 100_000_000 a_book ≡ ok after)
        × (after.marked_in ≡ a_vault.total_in + a_shielded.total_in)
        × (after.marked_out ≡ a_vault.total_out + a_shielded.total_out)
        × (nav_for_pricing a_vault before a_shielded
            ≡ ok (
              worth later a_book a_vault a_shielded - owed a_book a_vault a_shielded,
              9_000_000_000,
            ))
        × (nav_for_pricing a_vault after a_shielded
            ≡ ok (
              worth later a_book a_vault a_shielded - owed a_book a_vault a_shielded,
              9_000_000_000,
            ))
        × (nav_for_pricing a_vault after a_shielded ≡ ok (after.nav, 9_000_000_000)))
absorb_flows-absorb_example =
    absorb_flows-absorb an_env a_world a_vault a_book a_shielded later a_vault-Reads refl
      (omega arith) (omega arith) (omega arith) refl a_book-Fits (omega arith) (omega arith)
      (omega arith) (omega arith)

pub a_book-read : read_book a_loader an_account ≡ ok a_book
unfolding read_book
a_book-read = refl

pub a_shielded-read : read_shielded a_loader an_account ≡ ok a_shielded
unfolding read_shielded
a_shielded-read = refl

pub a_price : nav_for_pricing a_vault a_book a_shielded ≡ ok (10_400_000_000, 9_000_000_000)
unfolding nav_for_pricing
a_price = refl

-- A dollar goes in.
abbrev pub deposited : Effect
deposited = record {
  vault = record a_vault { shares = 6_000_865_384; total_in = 7_001_000_000 };
  calls =
      transfer_checked user_usdc vault_usdc user 1_000_000 6
      ∷ mint_to user_agyld vault_pda 865_384
      ∷ [];
  event = record { user = 40; assets = 1_000_000; shares = 865_384; nav = 10_400_000_000 };
}

pub deposits : deposit a_loader a_vault an_account an_account 40 1_000_000 ≡ ok deposited
unfolding deposit read_book read_shielded nav_for_pricing shares_for
deposits = refl

abbrev before_nav : ℕ
before_nav = 10_400_000_000

deposit-PriceLe_example :
    (nav : ℕ) × (supply : ℕ) × (nav_for_pricing deposited.vault a_book a_shielded
      ≡ ok (nav, supply))
    × PriceLe 10_400_000_000 9_000_000_000 nav supply
    × (9_000_000_000 < supply)
    × ((before_nav ≡ 0) ⊎ (nav ≡ before_nav + 1_000_000))
deposit-PriceLe_example =
    deposit-PriceLe a_loader a_vault an_account an_account 40 1_000_000 10_400_000_000 9_000_000_000
      a_book a_shielded deposited a_book-read a_shielded-read a_price deposits (omega arith)
      (omega arith) (omega arith)

-- A million shares go out.
abbrev pub redeemed : Effect
redeemed = record {
  vault = record a_vault { shares = 5_999_000_000; total_out = 1_155_555 };
  calls =
      burn user_agyld user 1_000_000
      ∷ transfer_checked vault_usdc user_usdc vault_pda 1_155_555 6
      ∷ [];
  event = record { user = 40; assets = 1_155_555; shares = 1_000_000; nav = 10_400_000_000 };
}

pub redeems : redeem a_loader a_vault an_account an_account 7_000_000_000 40 1_000_000 ≡ ok redeemed
unfolding redeem read_book read_shielded nav_for_pricing assets_for
redeems = refl

redeem-PriceLe_example :
    (a : ℕ) × (nav_for_pricing redeemed.vault a_book a_shielded
      ≡ ok (10_400_000_000 - a, 8_999_000_000))
    × PriceLe 10_400_000_000 9_000_000_000 (10_400_000_000 - a) 8_999_000_000
    × (a ≤ 7_000_000_000)
    × (redeemed.calls
        ≡ burn user_agyld user 1_000_000
          ∷ transfer_checked vault_usdc user_usdc vault_pda a decimals
          ∷ [])
redeem-PriceLe_example =
    redeem-PriceLe a_loader a_vault an_account an_account 7_000_000_000 40 1_000_000 10_400_000_000
      9_000_000_000 a_book a_shielded redeemed a_book-read a_shielded-read a_price redeems
      (omega arith) (omega arith)

buys : shares_for 1_000_000 10_400_000_000 9_000_000_000 ≡ ok 865_384
unfolding shares_for
buys = refl

sells : assets_for 865_384 10_401_000_000 9_000_865_384 ≡ ok 999_999
unfolding assets_for
sells = refl

-- Bought for a dollar, and sold for one unit less.
abbrev back : ℕ
back = 999_999

abbrev were_out : ℕ
were_out = 9_000_000_000

no_gain_example :
    ((0 < were_out) × (back ≤ 1_000_000)) ⊎ ((were_out ≡ 0) × (back ≡ 10_400_000_000 + 1_000_000))
no_gain_example = no_gain 1_000_000 10_400_000_000 9_000_000_000 865_384 999_999 buys sells
