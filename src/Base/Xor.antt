-- ===== src/Base/Xor.antt =====
-- Laws of `bit_xor` on the native numbers, from the recursion on binary digits.
use Prim.Native.Nat.{
  ℕ, zero, suc, ◌+◌, ◌*◌, ◌/◌, ◌%◌, ◌^◌, ◌≤◌, ◌<◌, bit_xor, differ, digits, bitwise,
  bit_xor-bitwise,
}
use native.Mathlib.Nat.{le_refl, pow-suc}
use mathlib.Core.Path.{◌≡◌, refl, sym, ap, ap₂, ◌∙◌}
use native.Mathlib.Omega.{arith}

abbrev xor_digits : ℕ → ℕ → ℕ → ℕ
xor_digits n a b = digits (λ b. b) differ n a b

xor_digits_fuel : (n m a b : ℕ) → a ≤ n → a ≤ m → xor_digits n a b ≡ xor_digits m a b
xor_digits_fuel zero zero a b p q = refl
xor_digits_fuel zero (suc m) zero b p q = refl
xor_digits_fuel zero (suc m) (suc a) b p q = absurd (omega arith)
xor_digits_fuel (suc n) zero zero b p q = refl
xor_digits_fuel (suc n) zero (suc a) b p q = absurd (omega arith)
xor_digits_fuel (suc n) (suc m) zero b p q = refl
xor_digits_fuel (suc n) (suc m) (suc a) b p q =
    rw (xor_digits_fuel n m (suc a / 2) (b / 2) (omega arith) (omega arith))

xor_digits_suc :
    (a b : ℕ)
    → bitwise (λ b. b) differ (suc a) b
      ≡ bitwise (λ b. b) differ (suc a / 2) (b / 2) * 2 + differ (suc a % 2) (b % 2)
xor_digits_suc a b =
    omega (arith, xor_digits_fuel a (suc a / 2) (suc a / 2) (b / 2) (omega arith) (le_refl _))

differ_zero : (b : ℕ) → differ 0 b ≡ b
differ_zero b = refl

-- The law for the lowest digit.
pub bit_xor_step : (a b : ℕ) → bit_xor a b ≡ bit_xor (a / 2) (b / 2) * 2 + differ (a % 2) (b % 2)
bit_xor_step zero b = simp bit_xor-bitwise (omega arith)
bit_xor_step (suc a) b = simp bit_xor-bitwise (xor_digits_suc a b)

pub zero-bit_xor : (b : ℕ) → bit_xor 0 b ≡ b
zero-bit_xor b = bit_xor-bitwise 0 b

differ_digit : (i j : ℕ) → i < 2 → j < 2 → differ i j ≡ (i + j) % 2
differ_digit zero j p q = omega arith
differ_digit (suc zero) zero p q = refl
differ_digit (suc zero) (suc zero) p q = refl
differ_digit (suc zero) (suc (suc j)) p q = absurd (omega arith)
differ_digit (suc (suc i)) j p q = absurd (omega arith)

pub bit_xor_parity : (a b : ℕ) → bit_xor a b ≡ bit_xor (a / 2) (b / 2) * 2 + (a % 2 + b % 2) % 2
bit_xor_parity a b =
    omega (arith, bit_xor_step a b, differ_digit (a % 2) (b % 2) (omega arith) (omega arith))

xor_comm_fuel : (n a b : ℕ) → a ≤ n → b ≤ n → bit_xor a b ≡ bit_xor b a
xor_comm_fuel zero a b p q = ap₂ bit_xor (omega arith) (omega arith)
xor_comm_fuel (suc n) a b p q = omega (
  arith,
  bit_xor_parity a b,
  bit_xor_parity b a,
  xor_comm_fuel n (a / 2) (b / 2) (omega arith) (omega arith),
)

pub bit_xor_comm : (a b : ℕ) → bit_xor a b ≡ bit_xor b a
bit_xor_comm a b = xor_comm_fuel (a + b) a b (omega arith) (omega arith)

xor_cancel_fuel : (n a b : ℕ) → a ≤ n → b ≤ n → bit_xor (bit_xor a b) b ≡ a
xor_cancel_fuel zero a b p q =
    let e : a ≡ 0 = omega arith in let f : b ≡ 0 = omega arith in rw (e, f)
xor_cancel_fuel (suc n) a b p q =
    bit_xor_parity (bit_xor a b) b
    ∙ ap₂ (λ (s t : ℕ). bit_xor s (b / 2) * 2 + (t + b % 2) % 2) half odd
    ∙ last (xor_cancel_fuel n (a / 2) (b / 2) (omega arith) (omega arith))
  where
    half : bit_xor a b / 2 ≡ bit_xor (a / 2) (b / 2)
    half = omega (arith, bit_xor_parity a b)

    odd : bit_xor a b % 2 ≡ (a % 2 + b % 2) % 2
    odd = omega (arith, bit_xor_parity a b)

    last :
        bit_xor (bit_xor (a / 2) (b / 2)) (b / 2) ≡ a / 2
        → bit_xor (bit_xor (a / 2) (b / 2)) (b / 2) * 2 + ((a % 2 + b % 2) % 2 + b % 2) % 2 ≡ a
    last h = omega arith

-- Exclusive or with the same number twice changes nothing.
pub bit_xor_cancel : (a b : ℕ) → bit_xor (bit_xor a b) b ≡ a
bit_xor_cancel a b = xor_cancel_fuel (a + b) a b (omega arith) (omega arith)

pub bit_xor_cancel_left : (a b : ℕ) → bit_xor (bit_xor a b) a ≡ b
bit_xor_cancel_left a b = ap (λ (t : ℕ). bit_xor t a) (bit_xor_comm a b) ∙ bit_xor_cancel b a

pub bit_xor-zero : (a : ℕ) → bit_xor a 0 ≡ a
bit_xor-zero a = bit_xor_comm a 0 ∙ zero-bit_xor a

pub bit_xor_injective : (a b c : ℕ) → bit_xor a c ≡ bit_xor b c → a ≡ b
bit_xor_injective a b c h =
    sym (bit_xor_cancel a c) ∙ ap (λ (t : ℕ). bit_xor t c) h ∙ bit_xor_cancel b c

xor_small : (a b : ℕ) → a ≡ 0 → b ≡ 0 → bit_xor a b ≡ 0
xor_small a b p q = rw (p, q) (zero-bit_xor 0)

pub bit_xor-lt : (k a b : ℕ) → a < 2 ^ k → b < 2 ^ k → bit_xor a b < 2 ^ k
bit_xor-lt zero a b p q =
    let e : bit_xor a b ≡ 0 = xor_small a b (omega arith) (omega arith) in omega arith
bit_xor-lt (suc k) a b p q = omega (
  arith,
  bit_xor_parity a b,
  pow-suc 2 k,
  bit_xor-lt k (a / 2) (b / 2) (omega (arith, pow-suc 2 k)) (omega (arith, pow-suc 2 k)),
)
