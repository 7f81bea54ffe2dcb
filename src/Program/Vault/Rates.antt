-- ===== src/Program/Vault/Rates.antt =====
-- What the two conversions between dollars and shares round to.
use native.Mathlib.Nat.{
  div-mul-le_self, lt-div-mul-add, le_of_mul-le-mul_right, mul-div_cancel_left, mul-le-mul_right,
}
use mathlib.Core.Path.{subst}
use agama_magicblock.Prelude.{
  ℕ, zero, suc, refl, ◌⊎◌, inl, inr, ◌+◌, ◌-◌, ◌*◌, ◌≤◌, ◌<◌, ◌≡◌, arith, ok, ap,
}
use agama_magicblock.Program.Pricing.{shares_for, assets_for}

-- Minted shares are worth at most the dollars, and one more share would be worth more.
pub shares_for_bounds :
    (amount nav supply s : ℕ)
    → 0 < nav
    → 0 < supply
    → shares_for amount nav supply ≡ ok s
    → (s * nav ≤ amount * supply) × (amount * supply < s * nav + nav) × (0 < s)
unfolding shares_for
shares_for_bounds amount nav supply s pn ps e = ground (
  arith,
  div-mul-le_self (amount * supply) nav,
  lt-div-mul-add {a = amount * supply} {b = nav} pn,
)

-- The first shares are bought at par.
pub shares_for_par : (amount nav : ℕ) → 0 < amount → shares_for amount nav 0 ≡ ok amount
unfolding shares_for
shares_for_par amount nav pa = ground arith

-- The dollars paid out are at most what the shares are worth.
pub assets_for_bounds :
    (shares nav supply a : ℕ)
    → assets_for shares nav supply ≡ ok a
    → (a * supply ≤ shares * nav) × (0 < supply)
unfolding assets_for
assets_for_bounds shares nav supply a e = ground (arith, div-mul-le_self (shares * nav) supply)

-- Shares are bought at par also where nothing is left to price them on.
at_par_empty :
    (amount supply s : ℕ) → shares_for amount 0 supply ≡ ok s → (s ≡ amount) × (0 < amount)
unfolding shares_for
at_par_empty amount supply s bought = ground arith

at_par_first : (amount nav s : ℕ) → shares_for amount nav 0 ≡ ok s → (s ≡ amount) × (0 < amount)
unfolding shares_for
at_par_first amount nav s bought = ground arith

-- All shares are worth the whole NAV.
assets_for_all : (nav supply a : ℕ) → 0 < supply → assets_for supply nav supply ≡ ok a → a ≡ nav
unfolding assets_for
assets_for_all nav supply a some_shares sold =
    let whole = mul-div_cancel_left nav some_shares in ground arith

-- Buying shares where there are others and selling them at the price right after pays at most what was
-- put in; buying them where there are none, at par, and selling them pays what was put in and the whole
-- NAV that there was before.
pub no_gain :
    (amount nav supply s a : ℕ)
    → shares_for amount nav supply ≡ ok s
    → assets_for s (nav + amount) (supply + s) ≡ ok a
    → ((0 < supply) × (a ≤ amount)) ⊎ ((supply ≡ 0) × (a ≡ nav + amount))
no_gain amount nav zero s a bought sold =
    let (par, positive) = at_par_first amount nav s bought in
    inr (
      refl,
      assets_for_all (nav + amount) s a (omega (arith, par, positive))
          (subst (λ t. assets_for s (nav + amount) t ≡ ok a) (omega arith) sold),
    )
no_gain amount zero (suc n) s a bought sold =
    let (par, positive) = at_par_empty amount (suc n) s bought in
    let (most, _) = assets_for_bounds s (0 + amount) (suc n + s) a sold in
    let bound : a * (suc n + s) ≤ amount * (suc n + s) =
      omega (arith, ap (λ (t : ℕ). t * amount) par, mul-le-mul_right amount (positive)) in
    inl
      (omega arith, le_of_mul-le-mul_right {m = a} {n = amount} {k = suc n + s} bound (omega arith))
no_gain amount (suc m) (suc n) s a bought sold =
    let b = shares_for_bounds amount (suc m) (suc n) s (omega arith) (omega arith) bought in
    let c = assets_for_bounds s (suc m + amount) (suc n + s) a sold in
    inl (omega arith, le_of_mul-le-mul_right {m = a} {n = amount} {k = suc n + s} (omega arith) c.1)

-- `nav / supply ≤ nav' / supply'`, without a division.
abbrev pub PriceLe : ℕ → ℕ → ℕ → ℕ → Type 0
PriceLe nav supply nav' supply' = nav * supply' ≤ nav' * supply

pub buy-PriceLe :
    (amount nav supply s : ℕ)
    → 0 < supply
    → shares_for amount nav supply ≡ ok s
    → PriceLe nav supply (nav + amount) (supply + s)
buy-PriceLe amount zero supply s ps bought = omega arith
buy-PriceLe amount (suc nav) supply s ps bought =
    omega (arith, shares_for_bounds amount (suc nav) supply s (omega arith) ps bought)

pub shares_for_some : (amount nav supply s : ℕ) → shares_for amount nav supply ≡ ok s → 0 < s
unfolding shares_for
shares_for_some amount nav supply s bought = ground arith

pub sell-PriceLe :
    (shares nav supply a : ℕ)
    → shares ≤ supply
    → a ≤ nav
    → assets_for shares nav supply ≡ ok a
    → PriceLe nav supply (nav - a) (supply - shares)
sell-PriceLe shares nav supply a s-le a-le sold =
    let b = assets_for_bounds shares nav supply a sold in
    let n : nav ≡ nav - a + a = omega arith in
    let s : supply ≡ supply - shares + shares = omega arith in
    omega (arith, b, ap (λ (t : ℕ). t * supply) n, ap (λ (t : ℕ). nav * t) s)

pub assets_for-le-nav :
    (shares nav supply a : ℕ) → shares ≤ supply → assets_for shares nav supply ≡ ok a → a ≤ nav
assets_for-le-nav shares nav supply a s-le sold =
    let b = assets_for_bounds shares nav supply a sold in
    let worth : shares * nav ≤ supply * nav = grind arith in
    le_of_mul-le-mul_right {m = a} {n = nav} {k = supply} (omega arith) b.1
