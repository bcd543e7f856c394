-- ===== src/Huffman/Bytes.antt =====
-- Bytes that are joined from the bits of two.
use native.Mathlib.Nat.{pow-suc}
use mohpc.Base.Bits.{mod_double, two_pow_pos}
use mohpc.Base.{
  ap, ◌∙◌, ℕ, zero, suc, ◌+◌, ◌-◌, ◌*◌, ◌/◌, ◌%◌, ◌^◌, ◌<◌, ◌≡◌, refl, arith, Bool, true, ◌==◌,
  bit_or, all_below, all_below_holds, ==_iff,
}

joins : ℕ → ℕ → ℕ → Bool
joins k x y = bit_or x (y * 2 ^ k) % 256 == x + y % 2 ^ (8 - k) * 2 ^ k

all_join : all_below 8 (λ k. all_below (2 ^ k) (λ x. all_below 256 (joins k x))) ≡ true
unfolding joins
all_join = refl

-- A byte that is put behind the low bits of another keeps as many of its bits as there is room for.
pub bit_or_join :
    (k x y : ℕ)
    → k < 8
    → x < 2 ^ k
    → y < 256
    → bit_or x (y * 2 ^ k) % 256 ≡ x + y % 2 ^ (8 - k) * 2 ^ k
unfolding joins
bit_or_join k x y h l m =
    (==_iff (bit_or x (y * 2 ^ k) % 256) (x + y % 2 ^ (8 - k) * 2 ^ k)).0 tested
  where
    tested : joins k x y ≡ true
    tested =
        all_below_holds 256 (joins k x)
          (all_below_holds (2 ^ k) (λ x. all_below 256 (joins k x))
            (all_below_holds 8 (λ k. all_below (2 ^ k) (λ x. all_below 256 (joins k x))) all_join k
              h)
            x l)
          y m

-- How a byte that lies across `x` and `y` is taken apart.
pub crossed :
    (sub x y : ℕ)
    → 0 < sub
    → sub < 8
    → x < 256
    → (x / 2 ^ sub < 2 ^ (8 - sub))
      × ((x / 2 ^ sub + y % 2 ^ sub * 2 ^ (8 - sub)) % 2 ^ (8 - sub) ≡ x / 2 ^ sub)
      × ((x / 2 ^ sub + y % 2 ^ sub * 2 ^ (8 - sub)) / 2 ^ (8 - sub) ≡ y % 2 ^ sub)
      × (x % 2 ^ sub + x / 2 ^ sub * 2 ^ sub ≡ x)
crossed zero x y l h k = absurd (omega arith)
crossed (suc zero) x y l h k = (omega arith, omega arith, omega arith, omega arith)
crossed (suc (suc zero)) x y l h k = (omega arith, omega arith, omega arith, omega arith)
crossed (suc (suc (suc zero))) x y l h k = (omega arith, omega arith, omega arith, omega arith)
crossed (suc (suc (suc (suc zero)))) x y l h k =
    (omega arith, omega arith, omega arith, omega arith)
crossed (suc (suc (suc (suc (suc zero))))) x y l h k =
    (omega arith, omega arith, omega arith, omega arith)
crossed (suc (suc (suc (suc (suc (suc zero)))))) x y l h k =
    (omega arith, omega arith, omega arith, omega arith)
crossed (suc (suc (suc (suc (suc (suc (suc zero))))))) x y l h k =
    (omega arith, omega arith, omega arith, omega arith)
crossed (suc (suc (suc (suc (suc (suc (suc (suc d)))))))) x y l h k = absurd (omega arith)

bit_cut : (i b : ℕ) → i < 8 → b < 2 → b % 2 ^ (8 - i) ≡ b
bit_cut zero b h l = omega arith
bit_cut (suc zero) b h l = omega arith
bit_cut (suc (suc zero)) b h l = omega arith
bit_cut (suc (suc (suc zero))) b h l = omega arith
bit_cut (suc (suc (suc (suc zero)))) b h l = omega arith
bit_cut (suc (suc (suc (suc (suc zero))))) b h l = omega arith
bit_cut (suc (suc (suc (suc (suc (suc zero)))))) b h l = omega arith
bit_cut (suc (suc (suc (suc (suc (suc (suc zero))))))) b h l = omega arith
bit_cut (suc (suc (suc (suc (suc (suc (suc (suc d)))))))) b h l = absurd (omega arith)

weigh : (v b q x : ℕ) → v + b * x + q * (x * 2) ≡ v + (q * 2 + b) * x
weigh v b q x = grind arith

below_double : (b v x : ℕ) → b < 2 → v < x → v + b * x < x * 2
below_double zero v x h l = omega arith
below_double (suc zero) v x h l = omega arith
below_double (suc (suc b)) v x h l = absurd (omega arith)

-- One more bit above the low ones.
pub add_high_bit :
    (n i v w : ℕ)
    → i < 8
    → v < 2 ^ i
    → (bit_or v (w % 2 * 2 ^ i) % 256 < 2 ^ (i + 1))
      × (bit_or v (w % 2 * 2 ^ i) % 256 + w / 2 % 2 ^ n * 2 ^ (i + 1) ≡ v + w % 2 ^ suc n * 2 ^ i)
add_high_bit n i v w h l =
    let joined : bit_or v (w % 2 * 2 ^ i) % 256 ≡ v + w % 2 * 2 ^ i =
      bit_or_join i v (w % 2) h l (omega arith)
      ∙ ap (λ (x : ℕ). v + x * 2 ^ i) (bit_cut i (w % 2) h (omega arith)) in
    let next : i + 1 ≡ suc i = omega arith in
    (
      rw (joined, next, pow-suc 2 i) (below_double (w % 2) v (2 ^ i) (omega arith) l),
      rw (joined, next, pow-suc 2 i, pow-suc 2 n, mod_double w (2 ^ n) (two_pow_pos n))
          (weigh v (w % 2) (w / 2 % 2 ^ n) (2 ^ i)),
    )
