-- ===== src/Chain/Bytes.antt =====
-- Little-endian fields of instruction data: what Node's `Buffer` writes and what Rust's
-- `from_le_bytes` reads.
use native.Mathlib.Nat.{pow-suc}
use agama_magicblock.Prelude.{
  ℕ, zero, suc, ◌+◌, ◌*◌, ◌/◌, ◌%◌, ◌^◌, ◌<◌, ◌≡◌, refl, Bool, true, false, ◌&&◌, ◌==◌, List, [],
  ◌∷◌, arith, drop, take, set, length, ap,
}

-- The `width` low bytes of a number, lowest first.
abbrev pub to_le : ℕ → ℕ → List ℕ
to_le zero n = []
to_le (suc width) n = (n % 256) ∷ to_le width (n / 256)

-- The number that a list of bytes spells, lowest byte first.
abbrev pub from_le : List ℕ → ℕ
from_le [] = 0
from_le (b ∷ bs) = b + 256 * from_le bs

-- `buffer[off] = b` for each byte of a field from `off` on.
abbrev pub write_at : List ℕ → ℕ → List ℕ → List ℕ
write_at buffer off [] = buffer
write_at buffer off (b ∷ bs) = write_at (set buffer off b) (suc off) bs

-- `d[off..off + width]`.
abbrev pub slice : List ℕ → ℕ → ℕ → List ℕ
slice d off width = take width (drop off d)

-- Slice equality.
abbrev pub same_bytes : List ℕ → List ℕ → Bool
same_bytes [] [] = true
same_bytes [] (y ∷ ys) = false
same_bytes (x ∷ xs) [] = false
same_bytes (x ∷ xs) (y ∷ ys) = x == y && same_bytes xs ys

pub from_le-to_le : (width n : ℕ) → n < 256 ^ width → from_le (to_le width n) ≡ n
from_le-to_le zero n h = omega arith
from_le-to_le (suc width) n h = omega (arith, from_le-to_le width (n / 256) (divided width n h))
  where
    divided : (k m : ℕ) → m < 256 ^ suc k → m / 256 < 256 ^ k
    divided k m p = omega (arith, pow-suc 256 k)

pub length-to_le : (width n : ℕ) → length (to_le width n) ≡ width
length-to_le zero n = refl
length-to_le (suc width) n = ap suc (length-to_le width (n / 256))
