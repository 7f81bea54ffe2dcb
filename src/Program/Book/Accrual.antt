-- ===== src/Program/Book/Accrual.antt =====
-- Yield over time: what a tick adds, that replaying one adds nothing, and what is lost by cutting
-- one interval into two.
use agama_magicblock.Prelude.{
  ℕ, ◌+◌, ◌-◌, ◌*◌, ◌/◌, ◌≤◌, ◌<◌, ◌≡◌, refl, min, List, [], ◌∷◌, arith, length, ok,
}
use agama_magicblock.Program.Machine.{u64_size, u128_size, saturating_add}
use agama_magicblock.Program.State.{PoolEntry, PoolBook, bps, seconds_per_year}
use agama_magicblock.Program.Book.{pending, accrue_pools, accrue, marked_from, marked_value, tick}

-- The yield of a pool over `dt` seconds at a fixed rate, rounded down: principal × rate × time.
abbrev pub yield_of : ℕ → PoolEntry → ℕ
yield_of dt p = p.principal * p.apr_bps * dt / (bps * seconds_per_year)

-- Nothing overflows when these pools accrue for `dt` seconds.
abbrev pub Fits : ℕ → List PoolEntry → Type 0
Fits dt [] = Unit {0}
Fits dt (p ∷ ps) =
    (p.principal * p.apr_bps * dt < u128_size) × (p.accrued + yield_of dt p < u64_size) × Fits dt ps

abbrev pub with_yield : ℕ → List PoolEntry → List PoolEntry
with_yield dt [] = []
with_yield dt (p ∷ ps) = record p { accrued = p.accrued + yield_of dt p } ∷ with_yield dt ps

abbrev pub accrued_sum : List PoolEntry → ℕ
accrued_sum [] = 0
accrued_sum (p ∷ ps) = p.accrued + accrued_sum ps

abbrev pub value_sum : List PoolEntry → ℕ
value_sum [] = 0
value_sum (p ∷ ps) = p.principal + p.accrued + value_sum ps

pending_lem :
    (dt : ℕ) (p : PoolEntry)
    → p.principal * p.apr_bps * dt < u128_size
    → p.accrued + yield_of dt p < u64_size
    → pending dt p ≡ ok (yield_of dt p)
unfolding pending
pending_lem dt p wide fits = ground arith

pub accrue_pools_lem :
    (dt : ℕ) (ps : List PoolEntry) → Fits dt ps → accrue_pools dt ps ≡ ok (with_yield dt ps)
unfolding accrue_pools
accrue_pools_lem dt [] f = refl
accrue_pools_lem dt (p ∷ ps) f =
    ground (arith, pending_lem dt p f.0 f.1, accrue_pools_lem dt ps f.2)

marked_from-sum :
    (acc : ℕ) (ps : List PoolEntry)
    → acc < u64_size
    → marked_from acc ps ≡ min (acc + value_sum ps) (u64_size - 1)
unfolding marked_from
marked_from-sum acc [] h = omega arith
marked_from-sum acc (p ∷ ps) h = omega (
  arith,
  marked_from-sum (saturating_add (saturating_add acc p.principal) p.accrued) ps (omega arith),
)

-- The marked value is the sum of every pool's principal and yield, held at the largest u64.
pub marked_value-sum :
    (book : PoolBook) → marked_value book ≡ min (value_sum book.pools) (u64_size - 1)
unfolding marked_value
marked_value-sum book = omega (arith, marked_from-sum 0 book.pools (omega arith))

-- A tick at a time the book has not passed marks every pool up by its yield for the time since the
-- last one, and stamps the book; `Fits` says that no amount leaves 64 bits.
pub tick_lem :
    (now : ℕ) (book : PoolBook)
    → book.last_ts < now
    → Fits (now - book.last_ts) book.pools
    → tick now book
      ≡ ok (record book {
        pools = with_yield (now - book.last_ts) book.pools;
        nav = min (value_sum (with_yield (now - book.last_ts) book.pools)) (u64_size - 1);
        last_ts = now;
        ticks = saturating_add book.ticks 1;
      })
unfolding tick accrue
tick_lem now book later fits = ground (
  arith,
  accrue_pools_lem (now - book.last_ts) book.pools fits,
  marked_value-sum (record book { pools = with_yield (now - book.last_ts) book.pools }),
)

-- Replaying a tick at the same time changes the tick count alone.
pub tick_replay :
    (now : ℕ) (book after : PoolBook)
    → tick now book ≡ ok after
    → tick now after ≡ ok (record after { ticks = saturating_add after.ticks 1 })
unfolding tick accrue
tick_replay now book after e = ground arith

-- A tick at an earlier time than the book's stamp accrues nothing and moves the stamp back, so
-- that the next tick pays the interval between the two times a second time.
pub tick_rewinds :
    (now later : ℕ) (book : PoolBook)
    → now < book.last_ts
    → book.last_ts < later
    → Fits (later - now) book.pools
    → (after : PoolBook) × (tick now book ≡ ok after)
      × (after.pools ≡ book.pools)
      × (after.last_ts ≡ now)
      × ((end : PoolBook) × (tick later after ≡ ok end)
          × (end.pools ≡ with_yield (later - now) book.pools))
unfolding tick accrue
tick_rewinds now later book early late fits =
    let after : PoolBook = record book {
      nav = marked_value book;
      last_ts = now;
      ticks = saturating_add book.ticks 1;
    } in
    (after, ground arith, refl, refl, (_, tick_lem later after (omega arith) fits, refl))

-- One interval cut in two: each pool loses at most one unit to the second rounding, and gains none.
yield_of-split :
    (d e : ℕ) (p : PoolEntry)
    → (yield_of d p + yield_of e p ≤ yield_of (d + e) p)
      × (yield_of (d + e) p ≤ yield_of d p + yield_of e p + 1)
yield_of-split d e p = omega arith

-- Cutting one interval in two at fixed rates (two ticks in place of one) never pays more, and loses
-- at most one unit for each pool: a missed tick is made up for, to within that rounding.
pub with_yield-split :
    (d e : ℕ) (ps : List PoolEntry)
    → (accrued_sum (with_yield e (with_yield d ps)) ≤ accrued_sum (with_yield (d + e) ps))
      × (accrued_sum (with_yield (d + e) ps)
          ≤ accrued_sum (with_yield e (with_yield d ps)) + length ps)
with_yield-split d e [] = omega arith
with_yield-split d e (p ∷ ps) = omega (arith, yield_of-split d e p, with_yield-split d e ps)

Fits-first : (d e : ℕ) (ps : List PoolEntry) → Fits (d + e) ps → Fits d ps
Fits-first d e [] f = tt
Fits-first d e (p ∷ ps) f =
    (omega arith, omega (arith, yield_of-split d e p), Fits-first d e ps f.2)

Fits-second : (d e : ℕ) (ps : List PoolEntry) → Fits (d + e) ps → Fits e (with_yield d ps)
Fits-second d e [] f = tt
Fits-second d e (p ∷ ps) f =
    (omega arith, omega (arith, yield_of-split d e p), Fits-second d e ps f.2)

-- A missed tick is made up for by the next: from one book, ticking at `now` and at `later` or at
-- `later` alone both succeed, and the second never accrues less, nor more than by one unit a pool.
pub tick_catch_up :
    (now later : ℕ) (book : PoolBook)
    → book.last_ts < now
    → now < later
    → Fits (later - book.last_ts) book.pools
    → (mid : PoolBook) × (both : PoolBook) × (one : PoolBook) × (tick now book ≡ ok mid)
      × (tick later mid ≡ ok both)
      × (tick later book ≡ ok one)
      × (accrued_sum both.pools ≤ accrued_sum one.pools)
      × (accrued_sum one.pools ≤ accrued_sum both.pools + length book.pools)
tick_catch_up now later book h k fits =
    let d : ℕ = now - book.last_ts in
    let e : ℕ = later - now in
    let whole : later - book.last_ts ≡ d + e = omega arith in
    let fits' : Fits (d + e) book.pools = rw (← whole) fits in
    let cut = with_yield-split d e book.pools in
    (
      _,
      _,
      _,
      tick_lem now book h (Fits-first d e book.pools fits'),
      tick_lem later _ k (Fits-second d e book.pools fits'),
      tick_lem later book (omega arith) fits,
      rw whole cut.0,
      rw whole cut.1,
    )
