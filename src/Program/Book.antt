-- ===== src/Program/Book.antt =====
-- `impl PoolBook` and the handlers that run on the public rollup: `tick`, `absorb`, `set_apr`.
-- The four pools are a list; the theorems that need it assume that there are four.
pub mod Flow
pub mod Accrual
pub mod Absorb
use agama_magicblock.Prelude.{
  ℕ, zero, suc, ◌+◌, ◌-◌, ◌*◌, ◌/◌, ◌%◌, min, List, [], ◌∷◌, Result, ok, err, ◌>>=◌, ◌>>◌, require,
  ltb, leb, ◌==◌, if◌then◌else◌, set, get_elem?, Option, none, some,
}
use agama_magicblock.Chain.{Pubkey}
use agama_magicblock.Program.Machine.{
  Outcome, saturating_add, saturating_sub, u64_size, checked_u128, bad_pool, unauthorized,
}
use agama_magicblock.Program.State.{PoolEntry, PoolBook, pool_count, bps, seconds_per_year}

pub total_weight : List PoolEntry → ℕ
total_weight [] = 0
total_weight (p ∷ ps) = p.weight_bps + total_weight ps

-- The share of `amount` that goes to pool `i`; the last pool takes what is left.
unfoldable pub fund_part : ℕ → ℕ → ℕ → ℕ → PoolEntry → ℕ
fund_part amount total_w placed i p =
    if i == pool_count - 1
    then saturating_sub amount placed
    else if total_w == 0
    then amount / pool_count
    else amount * p.weight_bps / total_w % u64_size

unfoldable pub fund_from : ℕ → ℕ → ℕ → ℕ → List PoolEntry → List PoolEntry
unfolding fund_part
fund_from amount total_w placed i [] = []
fund_from amount total_w placed i (p ∷ ps) =
    let part = fund_part amount total_w placed i p in
    record p { principal = saturating_add p.principal part }
    ∷ fund_from amount total_w (saturating_add placed part) (suc i) ps

unfoldable pub fund : ℕ → PoolBook → PoolBook
unfolding fund_from total_weight
fund amount book = record book { pools = fund_from amount (total_weight book.pools) 0 0 book.pools }

-- The loop's early `break` is this function's own test.
unfoldable pub defund_from : ℕ → List PoolEntry → List PoolEntry
defund_from rem [] = []
defund_from rem (p ∷ ps) =
    let take = min rem p.principal in
    let rest = defund_from (rem - take) ps in
    if rem == 0 then p ∷ ps else record p { principal = p.principal - take } ∷ rest

unfoldable pub defund : ℕ → PoolBook → PoolBook
unfolding defund_from
defund amount book = record book { pools = defund_from amount book.pools }

-- What one pool earns in `dt` seconds. `pending as u64` keeps the low 64 bits.
unfoldable pub pending : ℕ → PoolEntry → Outcome ℕ
pending dt p = do
  product ← checked_u128 (p.principal * p.apr_bps * dt)
  ok (product / (bps * seconds_per_year) % u64_size)

unfoldable pub accrue_pools : ℕ → List PoolEntry → Outcome (List PoolEntry)
unfolding pending
accrue_pools dt [] = ok []
accrue_pools dt (p ∷ ps) = do
  earned ← pending dt p
  rest ← accrue_pools dt ps
  ok (record p { accrued = saturating_add p.accrued earned } ∷ rest)

unfoldable pub accrue : ℕ → PoolBook → Outcome PoolBook
unfolding accrue_pools
accrue now book =
    if leb now book.last_ts
    then ok book
    else do pools ← accrue_pools (now - book.last_ts) book.pools; ok (record book { pools = pools })

unfoldable pub marked_from : ℕ → List PoolEntry → ℕ
marked_from acc [] = acc
marked_from acc (p ∷ ps) =
    marked_from (saturating_add (saturating_add acc p.principal) p.accrued) ps

unfoldable pub marked_value : PoolBook → ℕ
unfolding marked_from
marked_value book = marked_from 0 book.pools

unfoldable pub tick : ℕ → PoolBook → Outcome PoolBook
unfolding accrue marked_value
tick now book = do
  accrued ← accrue now book
  ok (record accrued {
    nav = marked_value accrued;
    last_ts = now;
    ticks = saturating_add accrued.ticks 1;
  })

-- `if inflow > 0 { … }` and `if outflow > 0 { … }`.
unfoldable pub take_in : ℕ → PoolBook → PoolBook
unfolding fund
take_in inflow book =
    if inflow == 0
    then book
    else record (fund inflow book) { marked_in = saturating_add book.marked_in inflow }

unfoldable pub pay_out : ℕ → PoolBook → PoolBook
unfolding defund
pay_out outflow book =
    if outflow == 0
    then book
    else record (defund outflow book) { marked_out = saturating_add book.marked_out outflow }

unfoldable pub absorb : Pubkey → ℕ → ℕ → ℕ → PoolBook → Outcome PoolBook
absorb authority now inflow outflow book = do
  require (authority == book.authority) unauthorized
  accrued ← accrue now book
  let moved = pay_out outflow (take_in inflow (record accrued { last_ts = now }))
  ok (record moved { nav = marked_value moved })

abbrev with_apr : ℕ → ℕ → List PoolEntry → List PoolEntry
with_apr index apr [] = []
with_apr zero apr (p ∷ ps) = record p { apr_bps = apr } ∷ ps
with_apr (suc index) apr (p ∷ ps) = p ∷ with_apr index apr ps

unfoldable pub set_apr : Pubkey → ℕ → ℕ → ℕ → PoolBook → Outcome PoolBook
set_apr authority now index apr_bps book = do
  require (authority == book.authority) unauthorized
  require (ltb index pool_count) bad_pool
  accrued ← accrue now book
  let changed = record accrued { last_ts = now; pools = with_apr index apr_bps accrued.pools }
  ok (record changed { nav = marked_value changed })
