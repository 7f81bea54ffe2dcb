-- ===== src/Program/Book/Flow.antt =====
-- Capital in and out of the pools: `fund` places exactly what it is given, `defund` takes back
-- exactly what the principals can cover.
use native.Mathlib.Nat.{mul-div-le}
use agama_magicblock.Prelude.{
  ℕ, suc, ◌+◌, ◌-◌, ◌*◌, ◌/◌, ◌≤◌, ◌<◌, ◌≡◌, min, List, [], ◌∷◌, arith, length, Bool-cases, inl,
  inr, ◌==◌, if◌then◌else◌, false,
}
use agama_magicblock.Program.Machine.{u64_size, saturating_add}
use agama_magicblock.Program.State.{PoolEntry, PoolBook, pool_count}
use agama_magicblock.Program.Book.{total_weight, fund_part, fund_from, fund, defund_from, defund}

abbrev pub principal_sum : List PoolEntry → ℕ
principal_sum [] = 0
principal_sum (p ∷ ps) = p.principal + principal_sum ps

-- A floored share of the amount, times the whole weight, is at most the amount times its weight.
floor_share : (amount w total : ℕ) → (amount * w / total) * total ≤ amount * w
floor_share amount w total = omega (arith, mul-div-le (amount * w) total)

-- What a pool would take if it were not the last.
abbrev nominal : ℕ → ℕ → PoolEntry → ℕ
nominal amount total_w p =
    if total_w == 0 then amount / pool_count else amount * p.weight_bps / total_w

abbrev nominal_sum : ℕ → ℕ → List PoolEntry → ℕ
nominal_sum amount total_w [] = 0
nominal_sum amount total_w (p ∷ ps) = nominal amount total_w p + nominal_sum amount total_w ps

-- Before the last pool, with room left, a pool takes its nominal share and no sum saturates.
fund_from-cons :
    (amount total_w placed i : ℕ) (p : PoolEntry) (ps : List PoolEntry)
    → suc i < pool_count
    → placed + nominal amount total_w p ≤ amount
    → p.principal + amount < u64_size
    → fund_from amount total_w placed i (p ∷ ps)
      ≡ record p { principal = p.principal + nominal amount total_w p }
        ∷ fund_from amount total_w (placed + nominal amount total_w p) (suc i) ps
unfolding fund_from
fund_from-cons amount total_w placed i p ps lt room fits =
    let part : fund_part amount total_w placed i p ≡ nominal amount total_w p = ground arith in
    let grown : saturating_add p.principal (nominal amount total_w p)
        ≡ p.principal + nominal amount total_w p =
      omega arith in
    let next : saturating_add placed (nominal amount total_w p)
        ≡ placed + nominal amount total_w p =
      omega arith in
    rw (part, grown, next)

fund_from-sum :
    (amount total_w placed i : ℕ) (ps : List PoolEntry)
    → i + length ps ≡ pool_count
    → i < pool_count
    → placed + nominal_sum amount total_w ps ≤ amount
    → principal_sum ps + amount < u64_size
    → principal_sum (fund_from amount total_w placed i ps) + placed ≡ principal_sum ps + amount
fund_from-sum amount total_w placed i [] n lt room fits = absurd (omega arith)
fund_from-sum amount total_w placed i (p ∷ []) n lt room fits = unfold fund_from in ground arith
fund_from-sum amount total_w placed i (p ∷ q ∷ ps) n lt room fits =
    rw (fund_from-cons amount total_w placed i p (q ∷ ps) (omega arith) (omega arith) (omega arith))
      (omega (
        arith,
        fund_from-sum amount total_w (placed + nominal amount total_w p) (suc i) (q ∷ ps)
            (omega arith) (omega arith) (omega arith) (omega arith),
      ))

-- The nominal shares of the pools together are at most the amount.
weighted :
    (amount total_w : ℕ) (ps : List PoolEntry)
    → (total_w == 0) ≡ false
    → nominal_sum amount total_w ps * total_w ≤ amount * total_weight ps
unfolding total_weight
weighted amount total_w [] nz = omega arith
weighted amount total_w (p ∷ ps) nz =
    rw nz (grind (arith, weighted amount total_w ps nz, floor_share amount p.weight_bps total_w))

even : (amount : ℕ) (ps : List PoolEntry) → nominal_sum amount 0 ps ≡ length ps * (amount / 4)
even amount [] = omega arith
even amount (p ∷ ps) = omega (arith, even amount ps)

nominal_sum-le :
    (amount : ℕ) (ps : List PoolEntry)
    → length ps ≡ pool_count
    → nominal_sum amount (total_weight ps) ps ≤ amount
nominal_sum-le amount ps n = elim (Bool-cases (total_weight ps == 0)) [
  | inl z ↦
      let e : total_weight ps ≡ 0 = ground arith in rw e (rw (even amount ps, n) (omega arith))
  | inr nz ↦ grind (arith, weighted amount (total_weight ps) ps nz)
]

-- `fund` places the whole amount: over four pools, with no total past 64 bits, the principals grow
-- by exactly `amount`, whatever the weights are (all zero included).
pub fund-sum :
    (amount : ℕ) (book : PoolBook)
    → length book.pools ≡ pool_count
    → principal_sum book.pools + amount < u64_size
    → principal_sum (fund amount book).pools ≡ principal_sum book.pools + amount
unfolding fund
fund-sum amount book n fits = omega (
  arith,
  fund_from-sum amount (total_weight book.pools) 0 0 book.pools (omega arith) (omega arith)
      (omega (arith, nominal_sum-le amount book.pools n)) fits,
)

defund_from-sum :
    (amount : ℕ) (ps : List PoolEntry)
    → principal_sum (defund_from amount ps) + min amount (principal_sum ps) ≡ principal_sum ps
unfolding defund_from
defund_from-sum amount [] = omega arith
defund_from-sum amount (p ∷ ps) =
    ground (arith, defund_from-sum (amount - min amount p.principal) ps)

-- `defund` takes exactly the amount out of the principals, or all of them if they hold less.
pub defund-sum :
    (amount : ℕ) (book : PoolBook)
    → principal_sum (defund amount book).pools + min amount (principal_sum book.pools)
      ≡ principal_sum book.pools
unfolding defund
defund-sum amount book = defund_from-sum amount book.pools
