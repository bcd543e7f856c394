-- ===== src/Msg/Values.antt =====
-- The values of a message, written and read one behind the other.
use mohpc.Base.{
  ℕ, ◌+◌, ◌-◌, ◌*◌, ◌≤◌, ◌<◌, ◌≡◌, refl, subst, arith, List, [], ◌∷◌, ◌++◌, map, false, length,
  length-append, get_or, ◌==◌, size_mod, ok, All,
}
use mohpc.Codec.Refill.{Reads}
use mohpc.Codec.RoundTrip.{IsValue, decode-Reads}
use mohpc.Codec.Rows.{row_bits, encode-Wrote, none_more, split_more, join_more}
use mohpc.Codec.Writer.{Wrote}
use mohpc.Huffman.{BitBuffer}
use mohpc.Huffman.Bits.{Holds}
use mohpc.Huffman.Places.{Holds_split}
use mohpc.Msg.{Value, write_bits, first_bytes, read_bits, write_values, read_values}
use mohpc.Stream.Interface.{MessageStream}

-- The bits of a message.
unfoldable pub message_bits : List Value → List ℕ
message_bits [] = []
message_bits (v ∷ vs) = row_bits v.bytes v.width ++ message_bits vs

abbrev pub widths : List Value → List ℕ
widths = map (λ v. v.width)

unfoldable pub AreValues : List Value → Type 0
AreValues = All (λ v. IsValue v.bytes v.width)

pub some_bytes : (xs : List ℕ) → 0 < get_or xs (length xs - 1) 0 → 0 < length xs
some_bytes [] h = h
some_bytes (x ∷ xs) h = omega arith

module _ (ms : MessageStream) where
  open ms use {Stream, content}

  pub write_values-Wrote :
      (vs : List Value) (bits : List ℕ) (more : ℕ) (b : BitBuffer) (s : Stream)
      → All (λ v. IsValue v.bytes v.width) vs
      → Wrote ms 136 bits (length (message_bits vs) + more) b s
      → (b' : BitBuffer) × (s' : Stream) × (write_values ms vs b s ≡ ok (b', s'))
        × Wrote ms 136 (bits ++ message_bits vs) more b' s'
  unfolding write_values write_bits message_bits
  write_values-Wrote [] bits more b s all w = (b, s, refl, none_more ms bits more b s w)
  write_values-Wrote (v ∷ vs) bits more b s (valid, all) w =
      let now = row_bits v.bytes v.width in
      let later = message_bits vs in
      let (b1, s1, ran, w1) =
        encode-Wrote ms v.bytes v.width bits (length later + more) b s valid.bytes
          (split_more ms bits now later more b s w) in
      let (b2, s2, on, w2) = write_values-Wrote vs (bits ++ now) more b1 s1 all w1 in
      (b2, s2, rw (ran, on) refl, join_more ms bits now later more b2 s2 w2)

  module _ (all : List ℕ) (small : length all < size_mod)
      (last : 0 < get_or all (length all - 1) 0) where
    pub read_values-Reads :
        (vs : List Value) (p : ℕ) (b : BitBuffer) (s : Stream)
        → All (λ v. IsValue v.bytes v.width) vs
        → p + length (message_bits vs) ≤ 8 * length all
        → Holds all p (message_bits vs)
        → Reads ms all p 147 b s
        → (b' : BitBuffer) × (s' : Stream) × (read_values ms (widths vs) b s ≡ ok (vs, b', s'))
          × Reads ms all (p + length (message_bits vs)) 147 b' s'
    unfolding read_values read_bits first_bytes message_bits
    read_values-Reads [] p b s valid inside holds w =
        (b, s, refl, subst (λ (x : ℕ). Reads ms all x 147 b s) (omega arith) w)
    read_values-Reads (v ∷ vs) p b s (valid, others) inside holds w =
        let now = row_bits v.bytes v.width in
        let later = message_bits vs in
        let sum = length-append now later in
        let begun : (ms.get_position s == 0) ≡ false =
          ground (arith, w.position, some_bytes all last) in
        let (front, behind) = Holds_split all now later p (p + length now) refl holds in
        let (b1, s1, ran, w1) =
          decode-Reads ms all small last v.bytes v.width p b s valid (omega (arith, inside, sum))
            front w in
        let (b2, s2, on, w2) =
          read_values-Reads vs (p + length now) b1 s1 others (omega (arith, inside, sum)) behind
            w1 in
        (
          b2,
          s2,
          rw (begun, ran, on) refl,
          subst (λ (x : ℕ). Reads ms all x 147 b2 s2) (omega (arith, sum)) w2,
        )
