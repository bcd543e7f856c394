-- ===== src/Codec/RoundTrip.antt =====
-- `Decode` gives back what `Encode` was given, where the reader stands at the bits of the value.
use mohpc.Base.{
  ℕ, ◌+◌, ◌-◌, ◌*◌, ◌/◌, ◌%◌, ◌^◌, ◌≤◌, ◌<◌, ◌≡◌, refl, subst, inl, inr, arith, List, [], ◌∷◌, ◌++◌,
  Bool-cases, length, length-append, get_or, ◌==◌, size_mod, ◌>>=◌, All,
}
use mohpc.Huffman.{BitBuffer}
use mohpc.Huffman.Bits.{Holds}
use mohpc.Huffman.Places.{Holds_split}
use mohpc.Codec.{get_low, read_bits, decode_bytes, decode_across, decode}
use mohpc.Codec.Decoder.{get_low-Holds, there, ahead, Gives}
use mohpc.Codec.Refill.{Reads, read_bits-Reads}
use mohpc.Codec.Rows.{low_bits, length-low_bits, byte_bits, across_bits, row_bits}
use mohpc.Codec.Values.{decode_bytes-Reads, decode_across-Reads}
use mohpc.Stream.Interface.{MessageStream}

-- The bytes of a value of `width` bits, with zeros above them.
pub record IsValue (buf : List ℕ) (width : ℕ) : Type 0 where
  pub bytes : All (λ v. v < 256) buf
  pub size : length buf ≡ (width + 7) / 8
  pub top : get_or buf (width / 8) 0 < 2 ^ (width % 8)

module _ (ms : MessageStream) (all : List ℕ) (small : length all < size_mod)
    (last : 0 < get_or all (length all - 1) 0) where
  open ms use {Stream}

  -- A value with `n` bits over is read: its low bits, then `rounds` bytes across.
  IsReadOver : ℕ → List ℕ → ℕ → ℕ → BitBuffer → Stream → ℕ → Type 0
  IsReadOver x buf n p b s rounds =
      get_or (x ∷ buf) rounds 0 < 2 ^ n
      → p + length (low_bits n x ++ across_bits rounds n (x ∷ buf)) ≤ 8 * length all
      → Holds all p (low_bits n x ++ across_bits rounds n (x ∷ buf))
      → Reads ms all p 147 b s
      → Gives ms all small last
          (do
            (b', s') ← read_bits ms b s
            decode_across ms rounds n (get_low n 0 0 b').0 (get_low n 0 0 b').1 s')
          (x ∷ buf) (p + length (low_bits n x ++ across_bits rounds n (x ∷ buf)))

  decode_over :
      (x : ℕ) (buf : List ℕ) (n p : ℕ) (b : BitBuffer) (s : Stream)
      → 0 < n
      → n < 8
      → All (λ v. v < 256) (x ∷ buf)
      → IsReadOver x buf n p b s (length buf)
  unfolding IsReadOver
  decode_over x buf n p b s pos few lts top inside holds w =
      let low = low_bits n x in
      let later = across_bits (length buf) n (x ∷ buf) in
      let sum = length-append low later in
      let long = length-low_bits n x in
      let (front, behind) = Holds_split all low later p (p + n) (omega (arith, long)) holds in
      let (b1, s1, ran, w1) =
        read_bits-Reads ms all p b s small last (omega (arith, inside, sum, long, pos)) w in
      let sole : 0 + x % 2 ^ n * 1 ≡ x % 2 ^ n = omega arith in
      let got =
        get_low-Holds n 0 0 x b1 (omega arith) (omega arith)
          (there ms all small last p low b1 s1 (omega (arith, long, few)) w1 front) in
      let (b2, s2, on, w2) =
        decode_across-Reads ms all small last n x buf (p + n) (record b1 { bit = b1.bit + n }) s1
          pos few lts top (omega (arith, inside, sum, long)) behind
          (ahead ms all small last p n b1 s1 (omega (arith, few)) w1) in
      (
        b2,
        s2,
        rw (ran, got, sole, on) refl,
        subst (λ (x : ℕ). Reads ms all x 147 b2 s2) (omega (arith, sum, long)) w2,
      )

  -- A value of complete bytes is read.
  IsReadRow : List ℕ → ℕ → BitBuffer → Stream → ℕ → Type 0
  IsReadRow buf p b s rounds =
      p + length (byte_bits rounds buf) ≤ 8 * length all
      → Holds all p (byte_bits rounds buf)
      → Reads ms all p 147 b s
      → Gives ms all small last (decode_bytes ms rounds b s) buf (p + length (byte_bits rounds buf))

  decode_rest :
      (buf : List ℕ) (width p : ℕ) (b : BitBuffer) (s : Stream)
      → IsValue buf width
      → 0 < width % 8
      → p
          + length
              (low_bits (width % 8) (get_or buf 0 0) ++ across_bits (width / 8) (width % 8) buf)
        ≤ 8 * length all
      → Holds all p
          (low_bits (width % 8) (get_or buf 0 0) ++ across_bits (width / 8) (width % 8) buf)
      → Reads ms all p 147 b s
      → Gives ms all small last
          (do
            (b', s') ← read_bits ms b s
            decode_across ms
                (width / 8)
                (width % 8)
                (get_low (width % 8) 0 0 b').0
                (get_low (width % 8) 0 0 b').1
                s')
          buf
          (p
            + length
                (low_bits (width % 8) (get_or buf 0 0) ++ across_bits (width / 8) (width % 8) buf))
  unfolding IsReadOver
  decode_rest [] width p b s v pos = absurd (omega (arith, v.size))
  decode_rest (x ∷ rest) width p b s v pos =
      let complete : length rest ≡ width / 8 = omega (arith, v.size) in
      subst (IsReadOver x rest (width % 8) p b s) complete
        (decode_over x rest (width % 8) p b s pos (omega arith) v.bytes) v.top

  -- `Decode` reads a value where its bits stand, and stops right behind them.
  pub decode-Reads :
      (buf : List ℕ) (width p : ℕ) (b : BitBuffer) (s : Stream)
      → IsValue buf width
      → p + length (row_bits buf width) ≤ 8 * length all
      → Holds all p (row_bits buf width)
      → Reads ms all p 147 b s
      → Gives ms all small last (decode ms width b s) buf (p + length (row_bits buf width))
  unfolding decode row_bits
  decode-Reads buf width p b s v = elim (Bool-cases (width % 8 == 0)) [
    | inl e ↦
        let complete : length buf ≡ width / 8 = ground (arith, v.size) in
        rw e (
          unfold IsReadRow in
          subst (IsReadRow buf p b s) complete (λ inside holds w.
            decode_bytes-Reads ms all small last buf p b s v.bytes inside holds w))
    | inr e ↦ rw e (decode_rest buf width p b s v (ground arith))
  ]
