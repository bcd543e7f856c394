-- ===== src/Codec/Values.antt =====
-- A value of any width is read where its bits stand.
use mohpc.Base.{
  ℕ, ◌+◌, ◌-◌, ◌*◌, ◌/◌, ◌%◌, ◌^◌, ◌≤◌, ◌<◌, ◌≡◌, refl, ap, subst, ◌∙◌, arith, List, [], ◌∷◌,
  length, length-append, get_or, bit_or, size_mod, ok, All,
}
use mohpc.Base.Bits.{two_pow_pos}
use mohpc.Huffman.{BitBuffer}
use mohpc.Huffman.Bits.{Holds}
use mohpc.Huffman.Bytes.{bit_or_join, crossed}
use mohpc.Huffman.Codes.{bits_of}
use mohpc.Huffman.Places.{Holds_split}
use mohpc.Codec.{decode_bytes, decode_across}
use mohpc.Codec.Decoder.{Gives, decode_byte-Reads}
use mohpc.Codec.Refill.{Reads}
use mohpc.Codec.Rows.{across, byte_bits, across_bits}
use mohpc.Stream.Interface.{MessageStream}

mod_of_lt : (k x : ℕ) → x < 2 ^ k → x % 2 ^ k ≡ x
mod_of_lt k x h = grind arith

mod_lt : (k x : ℕ) → x % 2 ^ k < 2 ^ k
mod_lt k x = grind (arith, two_pow_pos k)

-- A byte that was sent across `x` and `y` leaves the low bits of `y` over and completes `x`.
taken_apart :
    (sub x y : ℕ)
    → 0 < sub
    → sub < 8
    → x < 256
    → y < 256
    → (bit_or (x / 2 ^ sub) (y * 2 ^ (8 - sub)) % 256 / 2 ^ (8 - sub) ≡ y % 2 ^ sub)
      × (bit_or (x % 2 ^ sub) (bit_or (x / 2 ^ sub) (y * 2 ^ (8 - sub)) % 256 * 2 ^ sub) % 256 ≡ x)
taken_apart sub x y pos few lx ly =
    let (upper, cut, over, whole) = crossed sub x y pos few lx in
    let back : 8 - (8 - sub) ≡ sub = omega arith in
    let sent : bit_or (x / 2 ^ sub) (y * 2 ^ (8 - sub)) % 256
        ≡ x / 2 ^ sub + y % 2 ^ sub * 2 ^ (8 - sub) =
      bit_or_join (8 - sub) (x / 2 ^ sub) y (omega arith) upper ly
      ∙ ap (λ (k : ℕ). x / 2 ^ sub + y % 2 ^ k * 2 ^ (8 - sub)) back in
    (
      rw sent over,
      bit_or_join sub (x % 2 ^ sub) (bit_or (x / 2 ^ sub) (y * 2 ^ (8 - sub)) % 256) few
            (mod_lt sub x) (omega arith)
          ∙ rw (sent, cut) whole,
    )

module _ (ms : MessageStream) (all : List ℕ) (small : length all < size_mod)
    (last : 0 < get_or all (length all - 1) 0) where
  open ms use {Stream}

  pub decode_bytes-Reads :
      (buf : List ℕ) (p : ℕ) (b : BitBuffer) (s : Stream)
      → All (λ v. v < 256) buf
      → p + length (byte_bits (length buf) buf) ≤ 8 * length all
      → Holds all p (byte_bits (length buf) buf)
      → Reads ms all p 147 b s
      → Gives ms all small last
          (decode_bytes ms (length buf) b s)
          buf
          (p + length (byte_bits (length buf) buf))
  unfolding decode_bytes byte_bits
  decode_bytes-Reads [] p b s lt inside holds w =
      (b, s, refl, subst (λ (x : ℕ). Reads ms all x 147 b s) (omega arith) w)
  decode_bytes-Reads (v ∷ buf) p b s (lt, lts) inside holds w =
      let now = bits_of v in
      let later = byte_bits (length buf) buf in
      let sum = length-append now later in
      let (front, behind) = Holds_split all now later p (p + length now) refl holds in
      let (b1, s1, ran, w1) =
        decode_byte-Reads ms all small last p v b s lt (omega (arith, inside, sum)) front w in
      let (b2, s2, on, w2) =
        decode_bytes-Reads buf (p + length now) b1 s1 lts (omega (arith, inside, sum)) behind w1 in
      (
        b2,
        s2,
        rw (ran, on) refl,
        subst (λ (x : ℕ). Reads ms all x 147 b2 s2) (omega (arith, sum)) w2,
      )

  -- From the byte `x` on, of which the low `sub` bits are there already.
  pub decode_across-Reads :
      (sub x : ℕ) (buf : List ℕ) (p : ℕ) (b : BitBuffer) (s : Stream)
      → 0 < sub
      → sub < 8
      → All (λ v. v < 256) (x ∷ buf)
      → get_or (x ∷ buf) (length buf) 0 < 2 ^ sub
      → p + length (across_bits (length buf) sub (x ∷ buf)) ≤ 8 * length all
      → Holds all p (across_bits (length buf) sub (x ∷ buf))
      → Reads ms all p 147 b s
      → Gives ms all small last
          (decode_across ms (length buf) sub (x % 2 ^ sub) b s)
          (x ∷ buf)
          (p + length (across_bits (length buf) sub (x ∷ buf)))
  unfolding decode_across across_bits
  decode_across-Reads sub x [] p b s pos few lt top inside holds w = (
    b,
    s,
    ap (λ (y : ℕ). ok (y ∷ [], b, s)) (mod_of_lt sub x top),
    subst (λ (x : ℕ). Reads ms all x 147 b s) (omega arith) w,
  )
  decode_across-Reads sub x (y ∷ buf) p b s pos few (lt, lts) top inside holds w =
      let received = across sub (x ∷ y ∷ buf) in
      let now = bits_of received in
      let later = across_bits (length buf) sub (y ∷ buf) in
      let sum = length-append now later in
      let (front, behind) = Holds_split all now later p (p + length now) refl holds in
      let (b1, s1, ran, w1) =
        decode_byte-Reads ms all small last p received b s (omega arith)
          (omega (arith, inside, sum)) front w in
      let (b2, s2, on, w2) =
        decode_across-Reads sub y buf (p + length now) b1 s1 pos few lts top
          (omega (arith, inside, sum)) behind w1 in
      let (next, this) = taken_apart sub x y pos few lt lts.0 in
      (
        b2,
        s2,
        rw (ran, next, on, this) refl,
        subst (λ (x : ℕ). Reads ms all x 147 b2 s2) (omega (arith, sum)) w2,
      )
