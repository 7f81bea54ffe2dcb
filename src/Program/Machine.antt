-- ===== src/Program/Machine.antt =====
-- Rust's unsigned integers as natural numbers: saturating and checked operations, and what the
-- handlers fail with. Timestamps (i64) are natural numbers: the cluster's clock is never negative.
use agama_magicblock.Prelude.{ℕ, ◌+◌, ◌-◌, ◌^◌, ◌/◌, ltb, ◌==◌, if◌then◌else◌, min, Result, ok, err}

-- `AgamaError`, and behind it what no code of the program raises itself: a Rust panic (the build
-- sets `overflow-checks`), and a refused read of the instructions sysvar.
pub data Error : Type 0 where
  zero_amount dust_deposit insufficient_shares insufficient_liquidity math_overflow : Error
  bad_pool bad_mint unauthorized too_many_members faucet_cooldown bad_book_owner : Error
  book_ahead_of_vault bad_shielded bad_exit_params transfer_mismatch payment_mismatch : Error
  unknown_exit exit_book_full bad_session_rotation : Error
  panic sysvar_error : Error

abbrev pub Outcome : Type 0 → Type 0
Outcome = Result Error

abbrev pub u64_size : ℕ
u64_size = 2 ^ 64

abbrev pub u128_size : ℕ
u128_size = 2 ^ 128

-- `a.saturating_add(b)` and `a.saturating_sub(b)` on u64.
abbrev pub saturating_add : ℕ → ℕ → ℕ
saturating_add a b = min (a + b) (u64_size - 1)

abbrev pub saturating_sub : ℕ → ℕ → ℕ
saturating_sub a b = a - b

-- `u64::try_from(n).map_err(|_| MathOverflow)`.
abbrev pub to_u64 : ℕ → Outcome ℕ
to_u64 n = if ltb n u64_size then ok n else err math_overflow

-- A u128 sum or product that must not overflow.
abbrev pub checked_u128 : ℕ → Outcome ℕ
checked_u128 n = if ltb n u128_size then ok n else err panic

-- A u128 quotient; dividing by zero panics.
abbrev pub checked_div : ℕ → ℕ → Outcome ℕ
checked_div a b = if b == 0 then err panic else ok (a / b)
