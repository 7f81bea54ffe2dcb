-- ===== src/Program/Vault/Trading.antt =====
-- The share price over any sequence of deposits and redemptions between two states of the book.
use native.Mathlib.Nat.{le_of_mul-le-mul_right, mul-le-mul_right}
use agama_magicblock.Prelude.{ℕ, ◌+◌, ◌-◌, ◌*◌, ◌<◌, ◌≡◌, arith, ok}
use agama_magicblock.Chain.{Pubkey}
use agama_magicblock.Program.Machine.{u64_size}
use agama_magicblock.Program.State.{Vault, PoolBook, Shielded}
use agama_magicblock.Program.Pricing.{Loader, RawAccount, read_book, read_shielded, nav_for_pricing}
use agama_magicblock.Program.Vault.{Effect, deposit, redeem}
use agama_magicblock.Program.Vault.Rates.{PriceLe}
use agama_magicblock.Program.Vault.Price.{deposit-PriceLe, redeem-PriceLe}

-- One successful deposit or redemption at the book and the aggregate that two accounts hold, where the
-- totals stay below the largest u64, and a redemption leaves somebody holding shares.
pub data Trade (loader : Loader) (book_info shielded_info : RawAccount) (book : PoolBook)
    (shielded : Shielded) : Vault → Vault → Type 0 where
  bought :
      (vault : Vault) (payer : Pubkey) (amount : ℕ) (e : Effect)
      → deposit loader vault book_info shielded_info payer amount ≡ ok e
      → e.vault.shares + shielded.shares < u64_size - 1
      → book.nav + e.vault.total_in + shielded.total_in < u64_size - 1
      → Trade loader book_info shielded_info book shielded vault e.vault
  sold :
      (vault : Vault) (held : ℕ) (payer : Pubkey) (shares : ℕ) (e : Effect)
      → redeem loader vault book_info shielded_info held payer shares ≡ ok e
      → vault.shares + shielded.shares < u64_size
      → e.vault.total_out + shielded.total_out < u64_size - 1
      → 0 < e.vault.shares + shielded.shares
      → Trade loader book_info shielded_info book shielded vault e.vault

pub data Trades (loader : Loader) (book_info shielded_info : RawAccount) (book : PoolBook)
    (shielded : Shielded) : Vault → Vault → Type 0 where
  closed : (v : Vault) → Trades loader book_info shielded_info book shielded v v
  trading :
      (u v w : Vault)
      → Trade loader book_info shielded_info book shielded u v
      → Trades loader book_info shielded_info book shielded v w
      → Trades loader book_info shielded_info book shielded u w

PriceLe-trans : (a b c d e f : ℕ) → 0 < d → PriceLe a b c d → PriceLe c d e f → PriceLe a b e f
PriceLe-trans a b c d e f pd h₁ h₂ =
    le_of_mul-le-mul_right {m = a * f} {n = e * b} {k = d}
      (omega (arith, mul-le-mul_right f h₁, mul-le-mul_right b h₂)) pd

supply_positive :
    (vault : Vault) (book : PoolBook) (shielded : Shielded) (nav supply : ℕ)
    → 0 < vault.shares + shielded.shares
    → nav_for_pricing vault book shielded ≡ ok (nav, supply)
    → 0 < supply
unfolding nav_for_pricing
supply_positive vault book shielded nav supply held priced = ground arith

module _ (loader : Loader) (book_info shielded_info : RawAccount) (book : PoolBook)
    (shielded : Shielded) (book_read : read_book loader book_info ≡ ok book)
    (shielded_read : read_shielded loader shielded_info ≡ ok shielded) where
  -- One trade: the price after it exists, and is no smaller.
  Trade-PriceLe :
      (u v : Vault) (nav supply : ℕ)
      → nav_for_pricing u book shielded ≡ ok (nav, supply)
      → 0 < supply
      → Trade loader book_info shielded_info book shielded u v
      → (nav' supply' : ℕ) × (nav_for_pricing v book shielded ≡ ok (nav', supply'))
        × (0 < supply')
        × PriceLe nav supply nav' supply'
  Trade-PriceLe u _ nav supply priced ps (bought _ payer amount e did room ins) =
      let (nav', supply', after, le, more, _) =
        deposit-PriceLe loader u book_info shielded_info payer amount nav supply book shielded e
          book_read shielded_read priced did ps room ins in
      (nav', supply', after, omega (arith, more), le)
  Trade-PriceLe u _ nav supply priced ps (sold _ held payer shares e did room outs left) =
      let (a, after, le, _, _) =
        redeem-PriceLe loader u book_info shielded_info held payer shares nav supply book shielded e
          book_read shielded_read priced did room outs in
      (
        nav - a,
        supply - shares,
        after,
        supply_positive _ book shielded (nav - a) (supply - shares) left after,
        le,
      )

  -- The share price does not fall over a sequence of deposits and redemptions at one state of the book
  -- and the aggregate, where there are shares at its start, each redemption leaves somebody holding
  -- shares, and each trade keeps the totals below the largest u64: who is priced at its start with `nav`
  -- over `supply` is priced at its end with a pair that is no smaller a price.
  pub Trades-PriceLe :
      (u w : Vault) (nav supply : ℕ)
      → nav_for_pricing u book shielded ≡ ok (nav, supply)
      → 0 < supply
      → Trades loader book_info shielded_info book shielded u w
      → (nav' supply' : ℕ) × (nav_for_pricing w book shielded ≡ ok (nav', supply'))
        × PriceLe nav supply nav' supply'
  Trades-PriceLe u _ nav supply priced ps (closed _) = (nav, supply, priced, omega arith)
  Trades-PriceLe u w nav supply priced ps (trading _ v _ one rest) =
      let (nav₁, supply₁, after, ps₁, le) = Trade-PriceLe u v nav supply priced ps one in
      let (nav₂, supply₂, end, more) = Trades-PriceLe v w nav₁ supply₁ after ps₁ rest in
      (nav₂, supply₂, end, PriceLe-trans nav supply nav₁ supply₁ nav₂ supply₂ ps₁ le more)
