-- ===== src/Client/Readers/Agreement.antt =====
-- The NAV that state.ts prints against the NAV that the program prices with.
use agama_magicblock.Prelude.{ℕ, ◌+◌, ◌-◌, ◌^◌, ◌<◌, ◌≤◌, ◌≡◌, ok, some, arith, ap, ◌∙◌, sym}
use agama_magicblock.Program.State.{Vault, PoolBook, Shielded}
use agama_magicblock.Program.Pricing.{nav_for_pricing}
use agama_magicblock.Client.Readers.{ℤ, pos, ◌⊖◌, ◌+ℤ◌, ◌-ℤ◌, nav_of, or_zeros, report_of}

-- Totals that fit a u64, and a book that covers what it owes.
pub record IsSound (vault : Vault) (shielded : Shielded) (book : PoolBook) : Type 0 where
  pub in_fits : vault.total_in + shielded.total_in < 2 ^ 64
  pub out_fits : vault.total_out + shielded.total_out < 2 ^ 64
  pub nav_fits : book.nav + (vault.total_in + shielded.total_in) < 2 ^ 64
  pub covers :
      vault.total_out + shielded.total_out - book.marked_out
      ≤ book.nav + (vault.total_in + shielded.total_in - book.marked_in)

-- A difference that does not fall below zero.
⊖_pos : (m n : ℕ) → n ≤ m → m ⊖ n ≡ pos (m - n)
unfolding ◌⊖◌
⊖_pos m n h = ground arith

-- The signed NAV is the plain one where nothing falls below zero.
nav_of_pos :
    (total_in total_out : ℕ) (book : PoolBook)
    → book.marked_in ≤ total_in
    → book.marked_out ≤ total_out
    → total_out - book.marked_out ≤ book.nav + (total_in - book.marked_in)
    → nav_of total_in total_out book
      ≡ pos (book.nav + (total_in - book.marked_in) - (total_out - book.marked_out))
unfolding nav_of ◌+ℤ◌ ◌-ℤ◌
nav_of_pos total_in total_out book h₁ h₂ h₃ =
    let entered = ⊖_pos total_in book.marked_in h₁ in
    let left = ⊖_pos total_out book.marked_out h₂ in
    ap (λ (x : ℤ). (pos book.nav +ℤ x) -ℤ (total_out ⊖ book.marked_out)) entered
    ∙ ap (λ (x : ℤ). pos (book.nav + (total_in - book.marked_in)) -ℤ x) left
    ∙ ⊖_pos (book.nav + (total_in - book.marked_in)) (total_out - book.marked_out) h₃

-- What a successful pricing says of the book, and the NAV and the supply that it finds.
nav_for_pricing_inv :
    (vault : Vault) (shielded : Shielded) (book : PoolBook) (nav supply : ℕ)
    → IsSound vault shielded book
    → vault.shares + shielded.shares < 2 ^ 64
    → nav_for_pricing vault book shielded ≡ ok (nav, supply)
    → (book.marked_in ≤ vault.total_in + shielded.total_in)
      × (book.marked_out ≤ vault.total_out + shielded.total_out)
      × (nav
          ≡ book.nav
            + (vault.total_in + shielded.total_in - book.marked_in)
            - (vault.total_out + shielded.total_out - book.marked_out))
      × (supply ≡ vault.shares + shielded.shares)
unfolding nav_for_pricing
nav_for_pricing_inv vault shielded book nav supply sound shares_fit priced =
    let in_fits = sound.in_fits in
    let out_fits = sound.out_fits in let nav_fits = sound.nav_fits in ground arith

-- Over one vault and one aggregate, for the settled book and for the live one: where the program
-- prices with (nav, supply), state.ts prints that nav and that supply. The totals fit a u64, each
-- book covers what it owes, and the shares fit a u64.
pub report_of-nav_for_pricing :
    (vault : Vault) (shielded : Shielded) (settled live : PoolBook) (nav nav' supply supply' : ℕ)
    → IsSound vault shielded settled
    → IsSound vault shielded live
    → vault.shares + shielded.shares < 2 ^ 64
    → nav_for_pricing vault settled shielded ≡ ok (nav, supply)
    → nav_for_pricing vault live shielded ≡ ok (nav', supply')
    → report_of vault (some shielded) settled live
      ≡ record { settled = pos nav; live = pos nav'; supply = supply }
unfolding report_of or_zeros
report_of-nav_for_pricing vault shielded settled live nav nav' supply supply' ss sl fit ps pl =
    let (in₁, out₁, eq₁, shares) =
      nav_for_pricing_inv vault shielded settled nav supply ss fit ps in
    let (in₂, out₂, eq₂, shares₂) =
      nav_for_pricing_inv vault shielded live nav' supply' sl fit pl in
    let total_in = vault.total_in + shielded.total_in in
    let total_out = vault.total_out + shielded.total_out in
    let a = nav_of_pos total_in total_out settled in₁ out₁ ss.covers ∙ ap pos (sym eq₁) in
    let b = nav_of_pos total_in total_out live in₂ out₂ sl.covers ∙ ap pos (sym eq₂) in
    λ i. record { settled = a i; live = b i; supply = sym shares i }
