-- ===== src/Base/Bits.antt =====
-- Laws of `bit_xor` at variables, from the digit recursion that the native operation stands for.
use Prim.Native.Nat.{ℕ, zero, suc, ◌+◌, ◌*◌, ◌/◌, ◌%◌, ◌^◌, ◌≤◌, ◌<◌, bit_xor}
use Prim.Native.Nat.{differ, digits, bit_xor-bitwise}
use mathlib.Core.Path.{◌≡◌, refl, ap, ◌∙◌}
use native.Mathlib.Nat.{pow-suc}
use native.Mathlib.Omega.{arith}

differ_bits : (x y : ℕ) → x < 2 → y < 2 → differ x y ≡ (x + y) % 2
differ_bits zero zero h k = refl
differ_bits zero (suc zero) h k = refl
differ_bits zero (suc (suc y)) h k = absurd (omega arith)
differ_bits (suc zero) zero h k = refl
differ_bits (suc zero) (suc zero) h k = refl
differ_bits (suc zero) (suc (suc y)) h k = absurd (omega arith)
differ_bits (suc (suc x)) y h k = absurd (omega arith)

abbrev xor_digits : ℕ → ℕ → ℕ → ℕ
xor_digits n a b = digits (λ b. b) differ n a b

xor_digits_fuel : (n m a b : ℕ) → a ≤ n → a ≤ m → xor_digits n a b ≡ xor_digits m a b
xor_digits_fuel zero zero a b p q = refl
xor_digits_fuel zero (suc m) zero b p q = refl
xor_digits_fuel zero (suc m) (suc a) b p q = absurd (omega arith)
xor_digits_fuel (suc n) zero zero b p q = refl
xor_digits_fuel (suc n) zero (suc a) b p q = absurd (omega arith)
xor_digits_fuel (suc n) (suc m) zero b p q = refl
xor_digits_fuel (suc n) (suc m) (suc a) b p q =
    omega (arith, xor_digits_fuel n m (suc a / 2) (b / 2) (omega arith) (omega arith))

zero-bit_xor : (b : ℕ) → bit_xor 0 b ≡ b
zero-bit_xor b = bit_xor-bitwise 0 b

-- The lowest digit, and the rest.
pub bit_xor_step : (a b : ℕ) → bit_xor a b ≡ bit_xor (a / 2) (b / 2) * 2 + (a % 2 + b % 2) % 2
bit_xor_step zero b = omega (arith, zero-bit_xor b, zero-bit_xor (b / 2))
bit_xor_step (suc a) b = omega (
  arith,
  bit_xor-bitwise (suc a) b,
  bit_xor-bitwise (suc a / 2) (b / 2),
  differ_bits (suc a % 2) (b % 2) (omega arith) (omega arith),
  xor_digits_fuel a (suc a / 2) (suc a / 2) (b / 2) (omega arith) (omega arith),
)

pub mod_double : (x m : ℕ) → 0 < m → x % (m * 2) ≡ x / 2 % m * 2 + x % 2
mod_double x m h = grind arith

pub two_pow_pos : (k : ℕ) → 0 < 2 ^ k
two_pow_pos zero = omega arith
two_pow_pos (suc k) = omega (arith, two_pow_pos k, pow-suc 2 k)

xor_mod_step :
    (k a b : ℕ)
    → bit_xor a b % 2 ^ suc k ≡ bit_xor (a / 2) (b / 2) % 2 ^ k * 2 + (a % 2 + b % 2) % 2
xor_mod_step k a b = rw (pow-suc 2 k) (
    mod_double (bit_xor a b) (2 ^ k) (two_pow_pos k)
    ∙ half (bit_xor a b) (bit_xor (a / 2) (b / 2)) (omega (arith, bit_xor_step a b))
        (omega (arith, bit_xor_step a b)))
  where
    half :
        (x y : ℕ)
        → x / 2 ≡ y
        → x % 2 ≡ (a % 2 + b % 2) % 2
        → x / 2 % 2 ^ k * 2 + x % 2 ≡ y % 2 ^ k * 2 + (a % 2 + b % 2) % 2
    half x y p q = ap (λ (t : ℕ). t % 2 ^ k * 2 + x % 2) p ∙ ap (λ (t : ℕ). y % 2 ^ k * 2 + t) q

-- A word of `k` bits that is xored twice with the same key, and cut to `k` bits each time, is back.
pub xor_mod_cancel : (k a c : ℕ) → a < 2 ^ k → bit_xor (bit_xor a c % 2 ^ k) c % 2 ^ k ≡ a
xor_mod_cancel zero a c h = omega arith
xor_mod_cancel (suc k) a c h =
    xor_mod_step k (bit_xor a c % 2 ^ suc k) c
    ∙ join (bit_xor a c % 2 ^ suc k) (omega (arith, low)) (omega (arith, low))
        (xor_mod_cancel k (a / 2) (c / 2) (omega (arith, pow-suc 2 k)))
  where
    low : bit_xor a c % 2 ^ suc k ≡ bit_xor (a / 2) (c / 2) % 2 ^ k * 2 + (a % 2 + c % 2) % 2
    low = xor_mod_step k a c

    join :
        (x : ℕ)
        → x / 2 ≡ bit_xor (a / 2) (c / 2) % 2 ^ k
        → x % 2 ≡ (a % 2 + c % 2) % 2
        → bit_xor (bit_xor (a / 2) (c / 2) % 2 ^ k) (c / 2) % 2 ^ k ≡ a / 2
        → bit_xor (x / 2) (c / 2) % 2 ^ k * 2 + (x % 2 + c % 2) % 2 ≡ a
    join x p q r = rw p (omega (arith, q, r))

pub xor_byte_lt : (a c : ℕ) → bit_xor a c % 256 < 256
xor_byte_lt a c = omega arith
