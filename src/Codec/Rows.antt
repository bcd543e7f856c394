-- ===== src/Codec/Rows.antt =====
-- A value of any width as the bits that `Encode` writes for it.
use mohpc.Base.{
  ℕ, zero, suc, ◌+◌, ◌-◌, ◌*◌, ◌/◌, ◌%◌, ◌^◌, ◌<◌, ◌≡◌, refl, sym, ap, subst, inl, inr, arith, List,
  [], ◌∷◌, ◌++◌, append_assoc, append-nil, Bool, true, false, Bool-cases, length, length-append,
  drop, get_or, ◌==◌, if◌then◌else◌, bit_or, Result, ok, All,
}
use mohpc.Huffman.{BitBuffer, add_bit}
use mohpc.Huffman.Bits.{add_bits, AreBits}
use mohpc.Huffman.Codes.{bits_of}
use mohpc.Codec.{CodecError, add_low, encode_bytes, encode_across, encode}
use mohpc.Codec.Writer.{Wrote, write_new, encode_byte-Wrote}
use mohpc.Stream.Interface.{MessageStream}

-- The low bits of a byte, from the lowest on.
unfoldable pub low_bits : ℕ → ℕ → List ℕ
low_bits zero v = []
low_bits (suc n) v = v % 2 ∷ low_bits n (v / 2)

pub length-low_bits : (n v : ℕ) → length (low_bits n v) ≡ n
unfolding low_bits
length-low_bits zero v = refl
length-low_bits (suc n) v = ap suc (length-low_bits n (v / 2))

low_bits-AreBits : (n v : ℕ) → AreBits (low_bits n v)
unfolding low_bits AreBits
low_bits-AreBits zero v = tt
low_bits-AreBits (suc n) v = (omega arith, low_bits-AreBits n (v / 2))

add_low-low_bits : (n v : ℕ) (b : BitBuffer) → add_low n v b ≡ add_bits (low_bits n v) b
unfolding add_low low_bits
add_low-low_bits zero v b = refl
add_low-low_bits (suc n) v b = add_low-low_bits n (v / 2) (add_bit (v % 2) b)

-- The byte that lies across two, as `encode_across` sends it.
abbrev pub across : ℕ → List ℕ → ℕ
across sub p = bit_or (get_or p 0 0 / 2 ^ sub) (get_or p 1 0 * 2 ^ (8 - sub)) % 256

unfoldable pub byte_bits : ℕ → List ℕ → List ℕ
byte_bits zero p = []
byte_bits (suc rounds) p = bits_of (get_or p 0 0) ++ byte_bits rounds (drop 1 p)

unfoldable pub across_bits : ℕ → ℕ → List ℕ → List ℕ
across_bits zero sub p = []
across_bits (suc rounds) sub p = bits_of (across sub p) ++ across_bits rounds sub (drop 1 p)

-- The bits of a value of `bits` bits.
unfoldable pub row_bits : List ℕ → ℕ → List ℕ
unfolding byte_bits across_bits low_bits
row_bits buf bits =
    if bits % 8 == 0
    then byte_bits (bits / 8) buf
    else low_bits (bits % 8) (get_or buf 0 0) ++ across_bits (bits / 8) (bits % 8) buf

byte_lt : (p : List ℕ) (i : ℕ) → All (λ v. v < 256) p → get_or p i 0 < 256
byte_lt [] i all = omega arith
byte_lt (v ∷ p) zero (h, all) = h
byte_lt (v ∷ p) (suc i) (h, all) = byte_lt p i all

bytes_drop : (p : List ℕ) → All (λ v. v < 256) p → All (λ v. v < 256) (drop 1 p)
bytes_drop [] all = tt
bytes_drop (v ∷ p) (h, all) = all

module _ (ms : MessageStream) where
  open ms use {Stream}

  pub none_more :
      (bits : List ℕ) (more : ℕ) (b : BitBuffer) (s : Stream)
      → Wrote ms 136 bits (0 + more) b s
      → Wrote ms 136 (bits ++ []) more b s
  none_more bits more b s w =
      subst (λ (x : List ℕ). Wrote ms 136 x more b s) (sym (append-nil bits))
        (subst (λ (x : ℕ). Wrote ms 136 bits x b s) (omega arith) w)

  pub split_more :
      (bits xs ys : List ℕ) (more : ℕ) (b : BitBuffer) (s : Stream)
      → Wrote ms 136 bits (length (xs ++ ys) + more) b s
      → Wrote ms 136 bits (length xs + (length ys + more)) b s
  split_more bits xs ys more b s w =
      subst (λ (x : ℕ). Wrote ms 136 bits x b s) (omega (arith, length-append xs ys)) w

  pub join_more :
      (bits xs ys : List ℕ) (more : ℕ) (b : BitBuffer) (s : Stream)
      → Wrote ms 136 ((bits ++ xs) ++ ys) more b s
      → Wrote ms 136 (bits ++ (xs ++ ys)) more b s
  join_more bits xs ys more b s =
      subst (λ (x : List ℕ). Wrote ms 136 x more b s) (append_assoc bits xs ys)

  -- What a step of the encoder reaches: the new bits are written, and there is room for `more`.
  abbrev Writes : Result CodecError (BitBuffer × Stream) → List ℕ → ℕ → Type 0
  Writes r bits more = (b : BitBuffer) × (s : Stream) × (r ≡ ok (b, s)) × Wrote ms 136 bits more b s

  encode_bytes-Wrote :
      (rounds : ℕ) (p bits : List ℕ) (more : ℕ) (b : BitBuffer) (s : Stream)
      → All (λ v. v < 256) p
      → Wrote ms 136 bits (length (byte_bits rounds p) + more) b s
      → Writes (encode_bytes ms rounds p b s) (bits ++ byte_bits rounds p) more
  unfolding encode_bytes byte_bits
  encode_bytes-Wrote zero p bits more b s all w = (b, s, refl, none_more bits more b s w)
  encode_bytes-Wrote (suc rounds) p bits more b s all w =
      let now = bits_of (get_or p 0 0) in
      let later = byte_bits rounds (drop 1 p) in
      let (b1, s1, ran, w1) =
        encode_byte-Wrote ms bits (get_or p 0 0) (length later + more) b s (byte_lt p 0 all)
          (split_more bits now later more b s w) in
      let (b2, s2, on, w2) =
        encode_bytes-Wrote rounds (drop 1 p) (bits ++ now) more b1 s1 (bytes_drop p all) w1 in
      (b2, s2, rw (ran, on) refl, join_more bits now later more b2 s2 w2)

  encode_across-Wrote :
      (rounds sub : ℕ) (p bits : List ℕ) (more : ℕ) (b : BitBuffer) (s : Stream)
      → Wrote ms 136 bits (length (across_bits rounds sub p) + more) b s
      → Writes (encode_across ms rounds sub p b s) (bits ++ across_bits rounds sub p) more
  unfolding encode_across across_bits
  encode_across-Wrote zero sub p bits more b s w = (b, s, refl, none_more bits more b s w)
  encode_across-Wrote (suc rounds) sub p bits more b s w =
      let now = bits_of (across sub p) in
      let later = across_bits rounds sub (drop 1 p) in
      let (b1, s1, ran, w1) =
        encode_byte-Wrote ms bits (across sub p) (length later + more) b s (omega arith)
          (split_more bits now later more b s w) in
      let (b2, s2, on, w2) =
        encode_across-Wrote rounds sub (drop 1 p) (bits ++ now) more b1 s1 w1 in
      (b2, s2, rw (ran, on) refl, join_more bits now later more b2 s2 w2)

  -- `Encode` writes the bits of the value, whatever its width.
  -- Where bits have been written, in the stream and behind them in the buffer, with room for those
  -- of a value and more, Encode of that value of any width succeeds, and the bits of the value
  -- (its low bits, then the codes of the bytes across or of its bytes) stand behind those that
  -- were written, with room for the others left.
  pub encode-Wrote :
      (buf : List ℕ) (width : ℕ) (bits : List ℕ) (more : ℕ) (b : BitBuffer) (s : Stream)
      → All (λ v. v < 256) buf
      → Wrote ms 136 bits (length (row_bits buf width) + more) b s
      → Writes (encode ms buf width b s) (bits ++ row_bits buf width) more
  unfolding encode row_bits
  encode-Wrote buf width bits more b s all w = elim (Bool-cases (width % 8 == 0)) [
    | inl e ↦ rw e (encode_bytes-Wrote (width / 8) buf bits more b s all (chosen true e))
    | inr e ↦
        let low = low_bits (width % 8) (get_or buf 0 0) in
        let later = across_bits (width / 8) (width % 8) buf in
        let (b1, s1, ran, w1) =
          write_new ms bits low (length later + more) b s
            (low_bits-AreBits (width % 8) (get_or buf 0 0))
            (omega (arith, length-low_bits (width % 8) (get_or buf 0 0)))
            (split_more bits low later more b s (chosen false e)) in
        let (b2, s2, on, w2) =
          encode_across-Wrote (width / 8) (width % 8) buf (bits ++ low) more b1 s1 w1 in
        (
          b2,
          s2,
          rw (e, add_low-low_bits (width % 8) (get_or buf 0 0) b, ran, on) refl,
          rw e (join_more bits low later more b2 s2 w2),
        )
  ]
    where
      chosen :
          (x : Bool)
          → (width % 8 == 0) ≡ x
          → Wrote ms 136 bits
              (length (
                  if x
                  then byte_bits (width / 8) buf
                  else low_bits (width % 8) (get_or buf 0 0)
                    ++ across_bits (width / 8) (width % 8) buf)
                + more)
              b
              s
      chosen x e =
          subst
            (λ (x : Bool).
              Wrote ms 136 bits
                (length (
                    if x
                    then byte_bits (width / 8) buf
                    else low_bits (width % 8) (get_or buf 0 0)
                      ++ across_bits (width / 8) (width % 8) buf)
                  + more)
                b s)
            e w
