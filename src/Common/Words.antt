-- ===== src/Common/Words.antt =====
-- Two's complement `i64` values as bit patterns, and the little-endian bytes of an integer.
use fsyncer.Base.{
  ℕ, zero, suc, ◌+◌, ◌*◌, ◌/◌, ◌%◌, ◌^◌, ◌<◌, ◌≡◌, refl, ap, Bool, List, [], ◌∷◌, length, arith,
  ltb, leb,
}

abbrev pub two_63 : ℕ
two_63 = 0x8000000000000000

abbrev pub two_64 : ℕ
two_64 = 0x10000000000000000

-- `a < b` on `i64`: the order of the patterns with the sign bit flipped.
abbrev pub ltb_i64 : ℕ → ℕ → Bool
ltb_i64 a b = ltb ((a + two_63) % two_64) ((b + two_63) % two_64)

abbrev pub leb_i64 : ℕ → ℕ → Bool
leb_i64 a b = leb ((a + two_63) % two_64) ((b + two_63) % two_64)

-- On values that are not negative it is the order of the numbers.
pub ltb_i64-eq-ltb : (a b : ℕ) → a < two_63 → b < two_63 → ltb_i64 a b ≡ ltb a b
ltb_i64-eq-ltb a b p q = ground arith

pub leb_i64-eq-leb : (a b : ℕ) → a < two_63 → b < two_63 → leb_i64 a b ≡ leb a b
leb_i64-eq-leb a b p q = ground arith

unfoldable pub le_bytes : ℕ → ℕ → List ℕ
le_bytes zero n = []
le_bytes (suc k) n = (n % 256) ∷ le_bytes k (n / 256)

unfoldable pub le_value : List ℕ → ℕ
le_value [] = 0
le_value (b ∷ bs) = b + 256 * le_value bs

pub length-le_bytes : (k n : ℕ) → length (le_bytes k n) ≡ k
unfolding le_bytes
length-le_bytes zero n = refl
length-le_bytes (suc k) n = ap suc (length-le_bytes k (n / 256))

-- Reading back the four bytes of a `u32` gives it again.
pub le_value-le_bytes_4 : (n : ℕ) → n < 2 ^ 32 → le_value (le_bytes 4 n) ≡ n
unfolding le_bytes le_value
le_value-le_bytes_4 n h = omega arith
