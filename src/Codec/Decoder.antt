-- ===== src/Codec/Decoder.antt =====
-- What `Decode` reads where the bits of a value stand.
use mohpc.Base.{
  ℕ, zero, suc, ◌+◌, ◌-◌, ◌*◌, ◌/◌, ◌%◌, ◌^◌, ◌≤◌, ◌<◌, ◌≡◌, refl, ap₂, subst, ◌∙◌, arith, List,
  length, get_or, bit_or, size_mod, Result, ok,
}
use mohpc.Huffman.{BitBuffer, get_bit}
use mohpc.Huffman.Bits.{Holds}
use mohpc.Huffman.Bytes.{add_high_bit}
use mohpc.Huffman.Codes.{bits_of, length-bits_of, offset_receive-Holds}
use mohpc.Huffman.Places.{bit_at_moved, Holds_moved}
use mohpc.Codec.{CodecError, get_low, decode_byte}
use mohpc.Codec.Reader.{IsWindow}
use mohpc.Codec.Refill.{Reads, read_bits-Reads}
use mohpc.Codec.Rows.{low_bits}
use mohpc.Stream.Interface.{MessageStream}

-- The low bits come back, on top of those that are there.
pub get_low-Holds :
    (n i v w : ℕ) (b : BitBuffer)
    → i + n ≤ 8
    → v < 2 ^ i
    → Holds b.bytes b.bit (low_bits n w)
    → get_low n i v b ≡ (v + w % 2 ^ n * 2 ^ i, record b { bit = b.bit + n })
unfolding get_low low_bits Holds get_bit
get_low-Holds zero i v w b h l holds =
    let none_left : w % 1 ≡ 0 = omega arith in
    let same : v ≡ v + w % 1 * 2 ^ i = rw none_left (omega arith) in
    ap₂ (λ (x y : ℕ). (x, record b { bit = y })) same (omega arith)
get_low-Holds (suc n) i v w b h l (e, holds) =
    let (lt, sum) = add_high_bit n i v w (omega arith) l in
    rw e (
      get_low-Holds n (i + 1) (bit_or v (w % 2 * 2 ^ i) % 256) (w / 2)
        (record b { bit = b.bit + 1 }) (omega arith) lt
        (subst (λ (x : ℕ). Holds b.bytes x (low_bits n (w / 2))) (omega arith) holds)
      ∙ ap₂ (λ (x y : ℕ). (x, record b { bit = y })) sum (omega arith))

module _ (ms : MessageStream) (all : List ℕ) (small : length all < size_mod)
    (last : 0 < get_or all (length all - 1) 0) where
  open ms use {Stream}

  -- The buffer holds the bits that stand where the reader is.
  pub there :
      (p : ℕ) (bits : List ℕ) (b : BitBuffer) (s : Stream)
      → length bits ≤ 11
      → Reads ms all p 136 b s
      → Holds all p bits
      → Holds b.bytes b.bit bits
  unfolding IsWindow
  there p bits b s short w =
      Holds_moved all b.bytes bits b.bit (8 * w.base) p 256 w.place (omega (arith, w.low))
        (λ k l. bit_at_moved all b.bytes w.base k (w.window (k / 8) (omega arith)))

  pub ahead :
      (p n : ℕ) (b : BitBuffer) (s : Stream)
      → n ≤ 11
      → Reads ms all p 136 b s
      → Reads ms all (p + n) 147 (record b { bit = b.bit + n }) s
  ahead p n b s few w = record {
    valid = w.valid;
    whole = w.whole;
    size = w.size;
    base = w.base;
    place = omega (arith, w.place);
    low = omega (arith, w.low);
    position = w.position;
    window = w.window;
  }

  -- A read that gives `a` and leaves the reader at bit `p`.
  abbrev pub Gives : {A : Type 0} → Result CodecError (A × BitBuffer × Stream) → A → ℕ → Type 0
  Gives r a p = (b : BitBuffer) × (s : Stream) × (r ≡ ok (a, b, s)) × Reads ms all p 147 b s

  pub decode_byte-Reads :
      (p v : ℕ) (b : BitBuffer) (s : Stream)
      → v < 256
      → p + length (bits_of v) ≤ 8 * length all
      → Holds all p (bits_of v)
      → Reads ms all p 147 b s
      → Gives (decode_byte ms b s) v (p + length (bits_of v))
  unfolding decode_byte
  decode_byte-Reads p v b s lt inside holds w =
      let (some_bits, few) = length-bits_of v lt in
      let (b1, s1, ran, w1) =
        read_bits-Reads ms all p b s small last (omega (arith, some_bits, inside)) w in
      let byte : v % 256 ≡ v = omega arith in
      (
        record b1 { bit = b1.bit + length (bits_of v) },
        s1,
        rw (ran, offset_receive-Holds v b1 lt (there p (bits_of v) b1 s1 few w1 holds), byte) refl,
        ahead p (length (bits_of v)) b1 s1 few w1,
      )
