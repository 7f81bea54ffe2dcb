-- ===== src/Program/Book/Absorb.antt =====
-- `absorb`: what deploying inflows and pulling back outflows does to the marks and to the NAV, and the
-- price that is left by both.
use agama_magicblock.Prelude.{
  ℕ, suc, ◌+◌, ◌-◌, ◌≤◌, ◌<◌, ◌≡◌, refl, ap, min, List, [], ◌∷◌, arith, length, ok, ◌∙◌,
}
use agama_magicblock.Program.Machine.{u64_size, saturating_add}
use agama_magicblock.Program.State.{PoolEntry, PoolBook, Vault, Shielded, pool_count}
use agama_magicblock.Program.Book.{
  fund, fund_from, defund, defund_from, accrue, marked_value, take_in, pay_out, absorb, tick,
  total_weight, fund_part,
}
use agama_magicblock.Program.Book.Flow.{principal_sum, fund-sum, defund-sum}
use agama_magicblock.Program.Book.Accrual.{
  Fits, with_yield, value_sum, accrued_sum, accrue_pools_lem, marked_value-sum, tick_lem,
}
use agama_magicblock.Program.Pricing.{nav_for_pricing}

value_sum_parts : (ps : List PoolEntry) → value_sum ps ≡ principal_sum ps + accrued_sum ps
value_sum_parts [] = omega arith
value_sum_parts (p ∷ ps) = omega (arith, value_sum_parts ps)

principal_sum-with_yield :
    (dt : ℕ) (ps : List PoolEntry) → principal_sum (with_yield dt ps) ≡ principal_sum ps
principal_sum-with_yield dt [] = refl
principal_sum-with_yield dt (p ∷ ps) = omega (arith, principal_sum-with_yield dt ps)

length-with_yield : (dt : ℕ) (ps : List PoolEntry) → length (with_yield dt ps) ≡ length ps
length-with_yield dt [] = refl
length-with_yield dt (p ∷ ps) = ap suc (length-with_yield dt ps)

accrued_sum-fund_from :
    (amount total_w placed i : ℕ) (ps : List PoolEntry)
    → accrued_sum (fund_from amount total_w placed i ps) ≡ accrued_sum ps
unfolding fund_from
accrued_sum-fund_from amount total_w placed i [] = refl
accrued_sum-fund_from amount total_w placed i (p ∷ ps) = omega (
  arith,
  accrued_sum-fund_from amount total_w (saturating_add placed (fund_part amount total_w placed i p))
      (suc i) ps,
)

accrued_sum-defund_from :
    (amount : ℕ) (ps : List PoolEntry) → accrued_sum (defund_from amount ps) ≡ accrued_sum ps
unfolding defund_from
accrued_sum-defund_from amount [] = refl
accrued_sum-defund_from amount (p ∷ ps) =
    ground (arith, accrued_sum-defund_from (amount - min amount p.principal) ps)

value_sum-fund :
    (amount : ℕ) (book : PoolBook)
    → length book.pools ≡ pool_count
    → principal_sum book.pools + amount < u64_size
    → value_sum (fund amount book).pools ≡ value_sum book.pools + amount
unfolding fund
value_sum-fund amount book n fits = omega (
  arith,
  fund-sum amount book n fits,
  value_sum_parts (fund amount book).pools,
  value_sum_parts book.pools,
  accrued_sum-fund_from amount (total_weight book.pools) 0 0 book.pools,
)

value_sum-defund :
    (amount : ℕ) (book : PoolBook)
    → value_sum (defund amount book).pools + min amount (principal_sum book.pools)
      ≡ value_sum book.pools
unfolding defund
value_sum-defund amount book = omega (
  arith,
  defund-sum amount book,
  value_sum_parts (defund amount book).pools,
  value_sum_parts book.pools,
  accrued_sum-defund_from amount book.pools,
)

-- What `take_in` does to the value, the principals and the marks.
record TakenIn (inflow : ℕ) (book after : PoolBook) : Type 0 where
  value : value_sum after.pools ≡ value_sum book.pools + inflow
  principal : principal_sum after.pools ≡ principal_sum book.pools + inflow
  marked_in : after.marked_in ≡ book.marked_in + inflow
  marked_out : after.marked_out ≡ book.marked_out
  stamp : after.last_ts ≡ book.last_ts

take_in_lem :
    (inflow : ℕ) (book : PoolBook)
    → length book.pools ≡ pool_count
    → principal_sum book.pools + inflow < u64_size
    → book.marked_in + inflow < u64_size
    → TakenIn inflow book (take_in inflow book)
unfolding take_in
take_in_lem inflow book n fits marks =
    ground (arith, value_sum-fund inflow book n fits, fund-sum inflow book n fits)

-- What `pay_out` does to the value and the marks.
record PaidOut (outflow : ℕ) (book after : PoolBook) : Type 0 where
  value : value_sum after.pools + min outflow (principal_sum book.pools) ≡ value_sum book.pools
  marked_in : after.marked_in ≡ book.marked_in
  marked_out : after.marked_out ≡ book.marked_out + outflow
  stamp : after.last_ts ≡ book.last_ts

pay_out_lem :
    (outflow : ℕ) (book : PoolBook)
    → book.marked_out + outflow < u64_size
    → PaidOut outflow book (pay_out outflow book)
unfolding pay_out
pay_out_lem outflow book marks = ground (arith, value_sum-defund outflow book)

-- What an absorption leaves behind.
pub record Absorbs (now inflow outflow : ℕ) (book after : PoolBook) : Type 0 where
  pub nav :
      after.nav + min outflow (principal_sum book.pools + inflow)
      ≡ value_sum (with_yield (now - book.last_ts) book.pools) + inflow
  pub marked_in : after.marked_in ≡ book.marked_in + inflow
  pub marked_out : after.marked_out ≡ book.marked_out + outflow
  pub stamp : after.last_ts ≡ now

abbrev accrued_at : ℕ → PoolBook → PoolBook
accrued_at now book = record book {
  pools = with_yield (now - book.last_ts) book.pools;
  last_ts = now;
}

absorb_steps :
    (now inflow outflow : ℕ) (book : PoolBook)
    → book.last_ts < now
    → Fits (now - book.last_ts) book.pools
    → let moved = pay_out outflow (take_in inflow (accrued_at now book)) in
      absorb book.authority now inflow outflow book ≡ ok (record moved { nav = marked_value moved })
unfolding absorb accrue
absorb_steps now inflow outflow book later fits =
    ground (arith, accrue_pools_lem (now - book.last_ts) book.pools fits)

-- An absorption by the book's authority succeeds, and moves the NAV and both marks by exactly the
-- reported flows, on top of the yield since the last stamp, but the NAV by no more of the outflow than
-- the principals and the inflow hold: where the pools are four, the clock has moved, and no amount
-- leaves 64 bits.
pub absorb_lem :
    (now inflow outflow : ℕ) (book : PoolBook)
    → book.last_ts < now
    → length book.pools ≡ pool_count
    → Fits (now - book.last_ts) book.pools
    → value_sum (with_yield (now - book.last_ts) book.pools) + inflow < u64_size
    → book.marked_in + inflow < u64_size
    → book.marked_out + outflow < u64_size
    → (after : PoolBook) × (absorb book.authority now inflow outflow book ≡ ok after)
      × Absorbs now inflow outflow book after
absorb_lem now inflow outflow book later n fits room in_fits out_fits =
    let dt : ℕ = now - book.last_ts in
    let start : PoolBook = accrued_at now book in
    let sums = value_sum_parts start.pools in
    let same = principal_sum-with_yield dt book.pools in
    let t : TakenIn inflow start (take_in inflow start) =
      take_in_lem inflow start (length-with_yield dt book.pools ∙ n) (omega arith) in_fits in
    let q : PaidOut outflow (take_in inflow start) (pay_out outflow (take_in inflow start)) =
      pay_out_lem outflow (take_in inflow start) (omega arith) in
    (
      _,
      absorb_steps now inflow outflow book later fits,
      record {
        nav = omega (arith, marked_value-sum (pay_out outflow (take_in inflow start)));
        marked_in = omega arith;
        marked_out = omega arith;
        stamp = q.stamp ∙ t.stamp;
      },
    )

-- What the pools are worth at this time with the dollars that no mark counts yet, what has been paid out
-- beyond the marks, and the part of an outflow that neither the principals nor the inflow cover.
abbrev pub worth : ℕ → PoolBook → Vault → Shielded → ℕ
worth now book vault shielded =
    value_sum (with_yield (now - book.last_ts) book.pools)
    + (vault.total_in + shielded.total_in - book.marked_in)

abbrev pub owed : PoolBook → Vault → Shielded → ℕ
owed book vault shielded = vault.total_out + shielded.total_out - book.marked_out

abbrev pub uncovered : (inflow outflow : ℕ) → PoolBook → ℕ
uncovered inflow outflow book = outflow - (principal_sum book.pools + inflow)

-- What shares are priced on after a tick, and after an absorption at the same time of flows that are
-- within what the two custodies have taken in and paid out beyond the book's marks: the two NAVs are the
-- same where the principals and the inflow cover the outflow, and otherwise the second counts the
-- uncovered part of it once more. The pools are four, the clock has moved, and no amount leaves 64 bits.
pub absorb_pricing :
    (now inflow outflow : ℕ) (book : PoolBook) (vault : Vault) (shielded : Shielded)
    → book.last_ts < now
    → length book.pools ≡ pool_count
    → Fits (now - book.last_ts) book.pools
    → vault.total_in + shielded.total_in < u64_size
    → vault.total_out + shielded.total_out < u64_size
    → book.marked_in + inflow ≤ vault.total_in + shielded.total_in
    → book.marked_out + outflow ≤ vault.total_out + shielded.total_out
    → value_sum (with_yield (now - book.last_ts) book.pools) + vault.total_in + shielded.total_in
      < u64_size
    → let supply = saturating_add vault.shares shielded.shares in
      let nav = worth now book vault shielded in
      (ticked after : PoolBook) × (tick now book ≡ ok ticked)
      × (absorb book.authority now inflow outflow book ≡ ok after)
      × (nav_for_pricing vault ticked shielded ≡ ok (nav - owed book vault shielded, supply))
      × (nav_for_pricing vault after shielded
          ≡ ok (nav + uncovered inflow outflow book - owed book vault shielded, supply))
unfolding nav_for_pricing
absorb_pricing now inflow outflow book vault shielded later n fits in_fits out_fits ins outs room =
    let (after, done, a) =
      absorb_lem now inflow outflow book later n fits (omega arith) (omega arith) (omega arith) in
    let by = a.nav in
    let held = value_sum_parts (with_yield (now - book.last_ts) book.pools) in
    let same = principal_sum-with_yield (now - book.last_ts) book.pools in
    (_, after, tick_lem now book later fits, done, ground arith, ground arith)
