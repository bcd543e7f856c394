-- ===== src/Codec/Refill.antt =====
-- `ReadBits` on a stream that is read from its front on.
use mohpc.Base.{
  ℕ, ◌+◌, ◌-◌, ◌*◌, ◌/◌, ◌%◌, ◌≤◌, ◌<◌, min, ◌≡◌, refl, ap, ◌∙◌, inl, inr, arith, List, ◌++◌, true,
  false, Bool-cases, length, length-drop, drop, slice, get_or, ltb, ◌==◌, sub_size, size_mod, ok,
}
use mohpc.Codec.{all_zero, next_bytes, read_bits}
use mohpc.Codec.Reader.{all_zero_lem, IsWindow, refilled, length-refilled, refilled-IsWindow}
use mohpc.Huffman.{BitBuffer}
use mohpc.Huffman.Places.{get_or_front, get_or-drop}
use mohpc.Stream.{begin}
use mohpc.Stream.Interface.{MessageStream}

module _ (ms : MessageStream) (all : List ℕ) where
  open ms use {Stream, read, seek, get_position, get_length, content, IsValid}
  open ms use {length-content, read_lem, seek_lem}

  -- The reader stands at bit `p` of all the bytes, below `limit` in the buffer.
  pub record Reads (p limit : ℕ) (b : BitBuffer) (s : Stream) : Type 0 where
    pub valid : IsValid s
    pub whole : content s ≡ all
    pub size : length b.bytes ≡ 32
    pub base : ℕ
    pub place : p ≡ 8 * base + b.bit
    pub low : b.bit < limit
    pub position : get_position s ≡ min (length all) (base + 32)
    pub window : IsWindow all base b.bytes

  -- The next bytes of the stream, none at its end, where the last of all bytes is in the buffer yet.
  next_bytes_lem :
      (r n base : ℕ) (bytes : List ℕ) (s : Stream)
      → IsValid s
      → content s ≡ all
      → get_position s ≡ min (length all) (base + 32)
      → r ≡ min n (length all - min (length all) (base + 32))
      → 0 < n
      → n < 32
      → IsWindow all base bytes
      → length bytes ≡ 32
      → base + n < length all
      → 0 < get_or all (length all - 1) 0
      → (s' : Stream) × (next_bytes ms r (drop n bytes ++ drop (32 - n) bytes) s
          ≡ ok (slice (min (length all) (base + 32)) r all, s'))
        × IsValid s'
        × (content s' ≡ all)
        × (get_position s' ≡ min (length all) (base + 32) + r)
  unfolding next_bytes IsWindow
  next_bytes_lem r n base bytes s v whole pos rest some_n few window size before last =
      elim (Bool-cases (r == 0)) [
        | inl e ↦
            let none_left : r ≡ 0 = ground arith in
            let i : ℕ = length all - 1 - (base + n) in
            let moved = drop n bytes ++ drop (32 - n) bytes in
            let at_last : get_or moved i 0 ≡ get_or all (length all - 1) 0 =
              get_or_front (drop n bytes) (drop (32 - n) bytes) i
                (omega (arith, length-drop n bytes, size, rest, none_left))
              ∙ get_or-drop n i (n + i) bytes refl
              ∙ window (n + i) (omega (arith, rest, none_left, before))
              ∙ ap (λ (x : ℕ). get_or all x 0) (omega (arith, before)) in
            let live : all_zero moved ≡ false = elim (Bool-cases (all_zero moved)) [
              | inl z ↦ absurd (omega (arith, all_zero_lem moved i z, at_last, last))
              | inr z ↦ z
            ] in
            (s, rw (e, live, none_left) refl, v, whole, omega (arith, pos, none_left))
        | inr e ↦
            let fits : get_position s + r ≤ get_length s =
              omega (arith, length-content s v, ap length whole, pos, rest) in
            let (valid, moved, same) = seek_lem (get_position s + r) s v fits in
            (
              seek (get_position s + r) begin s,
              rw (e, read_lem r s v fits, pos, whole) refl,
              valid,
              same ∙ whole,
              moved ∙ ap (λ (x : ℕ). x + r) pos,
            )
      ]

  -- `ReadBits` leaves the reader at the same bit, with at least 120 bits before the end of the buffer.
  pub read_bits-Reads :
      (p : ℕ) (b : BitBuffer) (s : Stream)
      → length all < size_mod
      → 0 < get_or all (length all - 1) 0
      → p < 8 * length all
      → Reads p 147 b s
      → (b' : BitBuffer) × (s' : Stream) × (read_bits ms b s ≡ ok (b', s')) × Reads p 136 b' s'
  unfolding read_bits
  read_bits-Reads p b s small last before w = elim (Bool-cases (ltb 16 (b.bit / 8))) [
    | inl e ↦
        let n = b.bit / 8 in
        let at = min (length all) (w.base + 32) in
        let r = min n (sub_size (get_length s) (get_position s)) in
        let over : ltb (length b.bytes / 2) n ≡ true = rw (w.size) e in
        let rest : r ≡ min n (length all - at) =
          omega (arith, length-content s w.valid, ap length w.whole, w.position, small) in
        let (s', made, valid, whole, moved) =
          next_bytes_lem r n w.base b.bytes s w.valid w.whole w.position rest (ground arith)
            (omega (arith, w.low)) w.window w.size (omega (arith, w.place, before)) last in
        (
          record { bytes = refilled all n b.bytes at r; bit = b.bit % 8 },
          s',
          unfold refilled in rw (over, w.size, made) refl,
          record {
            valid = valid;
            whole = whole;
            size = length-refilled all w.base n r b.bytes w.size (omega (arith, w.low)) rest;
            base = w.base + n;
            place = omega (arith, w.place);
            low = omega arith;
            position = omega (arith, moved, rest);
            window =
                refilled-IsWindow all w.base n r b.bytes w.size (omega (arith, w.low)) rest
                  w.window;
          },
        )
    | inr e ↦
        let stay : ltb (length b.bytes / 2) (b.bit / 8) ≡ false = rw (w.size) e in
        (
          b,
          s,
          rw stay refl,
          record {
            valid = w.valid;
            whole = w.whole;
            size = w.size;
            base = w.base;
            place = w.place;
            low = ground arith;
            position = w.position;
            window = w.window;
          },
        )
  ]
