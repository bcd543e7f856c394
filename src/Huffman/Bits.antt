-- ===== src/Huffman/Bits.antt =====
-- What addBit writes, getBit reads, and nothing before it changes.
use mohpc.Base.{
  ℕ, suc, ◌+◌, ◌*◌, ◌/◌, ◌%◌, ◌^◌, ◌≤◌, ◌<◌, ◌≡◌, ◌≢◌, refl, ap, subst, ◌∙◌, inl, inr, arith, List,
  [], ◌∷◌, Bool, true, Bool-cases, ltb, ◌==◌, ◌&&◌, if◌then◌else◌, bit_or, set, get_or, length,
  all_below, all_below_holds, length-set, get_or-set_self, get_or-set_ne,
}
use mohpc.Huffman.{BitBuffer, add_bit, bit_at}

-- A byte that holds `bf` bits, with one more.
or_bit : ℕ → ℕ → ℕ → ℕ
or_bit bf c v = bit_or c (v * 2 ^ bf) % 256

grows_at : ℕ → ℕ → ℕ → Bool
unfolding or_bit
grows_at bf c v =
    (or_bit bf c v / 2 ^ bf % 2 == v)
    && ltb (or_bit bf c v) (2 ^ suc bf)
    && all_below bf (λ i. or_bit bf c v / 2 ^ i % 2 == c / 2 ^ i % 2)

all_grow : all_below 8 (λ bf. all_below (2 ^ bf) (λ c. all_below 2 (grows_at bf c))) ≡ true
unfolding grows_at
all_grow = refl

grow : (bf c v : ℕ) → bf < 8 → c < 2 ^ bf → v < 2 → grows_at bf c v ≡ true
grow bf c v h k l =
    all_below_holds 2 (grows_at bf c)
      (all_below_holds (2 ^ bf) (λ c. all_below 2 (grows_at bf c))
        (all_below_holds 8 (λ bf. all_below (2 ^ bf) (λ c. all_below 2 (grows_at bf c))) all_grow bf
          h)
        c k)
      v l

-- The byte that the next bit goes into holds none from there on, or is started by it.
unfoldable pub IsClean : BitBuffer → Type 0
IsClean b = 0 < b.bit % 8 → get_or b.bytes (b.bit / 8) 0 < 2 ^ (b.bit % 8)

-- The bits that a buffer holds from a position on.
unfoldable pub Holds : List ℕ → ℕ → List ℕ → Type 0
Holds fin bloc [] = Unit
Holds fin bloc (v ∷ bits) = (bit_at fin bloc ≡ v) × Holds fin (suc bloc) bits

-- `t` is `b` with the bits behind it.
pub record Extends (bits : List ℕ) (b t : BitBuffer) : Type 0 where
  pub moved : t.bit ≡ b.bit + length bits
  pub room : length t.bytes ≡ length b.bytes
  pub kept : (i : ℕ) → i < b.bit → bit_at t.bytes i ≡ bit_at b.bytes i
  pub there : Holds t.bytes b.bit bits
  pub clean : IsClean t

-- The byte as addBit finds it.
start_byte : BitBuffer → ℕ
start_byte b = if b.bit % 8 == 0 then 0 else get_or b.bytes (b.bit / 8) 0

start_byte_lt : (b : BitBuffer) → IsClean b → start_byte b < 2 ^ (b.bit % 8)
unfolding IsClean start_byte
start_byte_lt b clean = elim (Bool-cases (b.bit % 8 == 0)) [
  | inl e ↦ let z : b.bit % 8 ≡ 0 = ground arith in rw z (omega arith)
  | inr e ↦ rw e (clean (ground arith))
]

module _ (v : ℕ) (b : BitBuffer) (fits : b.bit / 8 < length b.bytes) where
  cleared : List ℕ
  cleared = if b.bit % 8 == 0 then set b.bytes (b.bit / 8) 0 else b.bytes

  length-cleared : length cleared ≡ length b.bytes
  unfolding cleared
  length-cleared = ground (arith, length-set b.bytes (b.bit / 8) 0)

  cleared_self : get_or cleared (b.bit / 8) 0 ≡ start_byte b
  unfolding cleared start_byte
  cleared_self = ground (arith, get_or-set_self b.bytes (b.bit / 8) 0 0 fits)

  cleared_ne : (j : ℕ) → b.bit / 8 ≢ j → get_or cleared j 0 ≡ get_or b.bytes j 0
  unfolding cleared
  cleared_ne j ne = ground (arith, get_or-set_ne b.bytes (b.bit / 8) j 0 0 ne)

  length-add_bit : length (add_bit v b).bytes ≡ length b.bytes
  unfolding add_bit cleared
  length-add_bit = length-set cleared (b.bit / 8) _ ∙ length-cleared

  add_bit_self : get_or (add_bit v b).bytes (b.bit / 8) 0 ≡ or_bit (b.bit % 8) (start_byte b) v
  unfolding add_bit cleared or_bit
  add_bit_self =
      get_or-set_self cleared (b.bit / 8) _ 0 (rw length-cleared fits)
      ∙ ap (λ (c : ℕ). bit_or c (v * 2 ^ (b.bit % 8)) % 256) cleared_self

  add_bit_ne : (j : ℕ) → b.bit / 8 ≢ j → get_or (add_bit v b).bytes j 0 ≡ get_or b.bytes j 0
  unfolding add_bit cleared
  add_bit_ne j ne = get_or-set_ne cleared (b.bit / 8) j _ 0 ne ∙ cleared_ne j ne

module _ (v : ℕ) (b : BitBuffer) (fits : b.bit / 8 < length b.bytes) (h : v < 2)
    (k : IsClean b) where
  grown : grows_at (b.bit % 8) (start_byte b) v ≡ true
  grown = grow (b.bit % 8) (start_byte b) v (omega arith) (start_byte_lt b k) h

  new_bit : or_bit (b.bit % 8) (start_byte b) v / 2 ^ (b.bit % 8) % 2 ≡ v
  unfolding grows_at
  new_bit = ground (arith, grown)

  new_byte_lt : or_bit (b.bit % 8) (start_byte b) v < 2 ^ suc (b.bit % 8)
  unfolding grows_at
  new_byte_lt = ground (arith, grown)

  old_bits :
      (i : ℕ)
      → i < b.bit % 8
      → or_bit (b.bit % 8) (start_byte b) v / 2 ^ i % 2 ≡ start_byte b / 2 ^ i % 2
  unfolding grows_at
  old_bits i l =
      let test : ℕ → Bool =
        λ (i : ℕ). or_bit (b.bit % 8) (start_byte b) v / 2 ^ i % 2 == start_byte b / 2 ^ i % 2 in
      let all : all_below (b.bit % 8) test ≡ true = ground (arith, grown) in
      ground (arith, all_below_holds (b.bit % 8) test all i l)

  add_bit_kept : (i : ℕ) → i < b.bit → bit_at (add_bit v b).bytes i ≡ bit_at b.bytes i
  unfolding bit_at
  add_bit_kept i l = elim (Bool-cases (b.bit / 8 == i / 8)) [
    | inl e ↦
        let same : b.bit / 8 ≡ i / 8 = ground arith in
        let started : start_byte b ≡ get_or b.bytes (b.bit / 8) 0 =
          unfold start_byte in ground arith in
        rw (← same) (rw (add_bit_self v b fits, old_bits (i % 8) (omega arith), started) refl)
    | inr e ↦ rw (add_bit_ne v b fits (i / 8) (ground arith)) refl
  ]

  add_bit_there : bit_at (add_bit v b).bytes b.bit ≡ v
  unfolding bit_at
  add_bit_there = rw (add_bit_self v b fits) new_bit

  add_bit-IsClean : IsClean (add_bit v b)
  unfolding IsClean
  add_bit-IsClean p =
      let pos : 0 < (b.bit + 1) % 8 = unfold add_bit in p in
      let same : (b.bit + 1) / 8 ≡ b.bit / 8 = omega arith in
      let next : (b.bit + 1) % 8 ≡ suc (b.bit % 8) = omega arith in
      unfold add_bit in rw (same, next) (rw (add_bit_self v b fits) new_byte_lt)

abbrev pub add_bits : List ℕ → BitBuffer → BitBuffer
add_bits [] b = b
add_bits (v ∷ bits) b = add_bits bits (add_bit v b)

unfoldable pub AreBits : List ℕ → Type 0
AreBits [] = Unit
AreBits (v ∷ bits) = (v < 2) × AreBits bits

pub Holds_kept :
    (fin out : List ℕ) (bits : List ℕ) (i j : ℕ)
    → i + length bits ≤ j
    → ((k : ℕ) → k < j → bit_at out k ≡ bit_at fin k)
    → Holds fin i bits
    → Holds out i bits
unfolding Holds
Holds_kept fin out [] i j l same h = tt
Holds_kept fin out (v ∷ bits) i j l same (e, h) =
    (same i (omega arith) ∙ e, Holds_kept fin out bits (suc i) j (omega arith) same h)

pub add_bits-Extends :
    (bits : List ℕ) (b : BitBuffer)
    → AreBits bits
    → IsClean b
    → b.bit + length bits ≤ 8 * length b.bytes
    → Extends bits b (add_bits bits b)
unfolding Holds AreBits
add_bits-Extends [] b all clean fits = record {
  moved = omega arith;
  room = refl;
  kept = λ i l. refl;
  there = tt;
  clean = clean;
}
add_bits-Extends (v ∷ bits) b (small, all) clean fits =
    let r : b.bit / 8 < length b.bytes = omega arith in
    let len = length-add_bit v b r in
    let step : (add_bit v b).bit ≡ suc b.bit = unfold add_bit in omega arith in
    let e =
      add_bits-Extends bits (add_bit v b) all (add_bit-IsClean v b r small clean)
        (omega (arith, len, step)) in
    record {
      moved = omega (arith, e.moved, step);
      room = e.room ∙ len;
      kept = λ i l. e.kept i (omega (arith, step)) ∙ add_bit_kept v b r small clean i l;
      there = (
        e.kept b.bit (omega (arith, step)) ∙ add_bit_there v b r small clean,
        subst (λ (x : ℕ). Holds (add_bits bits (add_bit v b)).bytes x bits) step e.there,
      );
      clean = e.clean;
    }
