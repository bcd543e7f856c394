-- ===== src/Msg/RoundTrip.antt =====
-- A message that was written is read back.
use mohpc.Base.{
  ℕ, zero, suc, ◌+◌, ◌-◌, ◌*◌, ◌/◌, ◌%◌, ◌^◌, ◌≤◌, ◌<◌, min, ◌≡◌, refl, sym, ap, subst, ◌∙◌, inl,
  inr, arith, List, [], ◌∷◌, ◌++◌, append_assoc, Bool-cases, length, length-append, length-take,
  length-replicate, take, drop, slice, replicate, take-append-drop, get_or, ltb, ◌==◌, sub_size,
  size_mod, ok,
}
use mohpc.Base.Bits.{two_pow_pos}
use mohpc.Codec.Reader.{IsWindow, get_or-take}
use mohpc.Codec.Refill.{Reads}
use mohpc.Codec.Writer.{HasRoom, Wrote, write_behind}
use mohpc.Huffman.{BitBuffer, bit_at}
use mohpc.Huffman.Bits.{IsClean, Holds, Holds_kept}
use mohpc.Huffman.Places.{bit_at_front, get_or_front, get_or_behind, get_or-replicate, get_or_past}
use mohpc.Msg.{Value, empty_buffer, flush, reset, write_message, read_message}
use mohpc.Msg.Values.{message_bits, widths, AreValues, write_values-Wrote, read_values-Reads}
use mohpc.Stream.{begin}
use mohpc.Stream.Interface.{MessageStream}

Holds_within :
    (xs ys bits : List ℕ) → length bits ≤ 8 * length xs → Holds (xs ++ ys) 0 bits → Holds xs 0 bits
Holds_within xs ys bits l h =
    Holds_kept (xs ++ ys) xs bits 0 (8 * length xs) (omega arith)
      (λ k m. sym (bit_at_front xs ys k m)) h

Holds_at :
    (fin bits : List ℕ) (i k j : ℕ)
    → Holds fin i bits
    → k < length bits
    → j ≡ i + k
    → bit_at fin j ≡ get_or bits k 0
unfolding Holds
Holds_at fin [] i k j h l e = absurd (omega arith)
Holds_at fin (v ∷ bits) i zero j (b, h) l e = ap (bit_at fin) (omega arith) ∙ b
Holds_at fin (v ∷ bits) i (suc k) j (b, h) l e =
    Holds_at fin bits (suc i) k j h (omega arith) (omega arith)

one_in_byte : (fin : List ℕ) (j : ℕ) → bit_at fin j ≡ 1 → 0 < get_or fin (j / 8) 0
unfolding bit_at
one_in_byte fin j h = elim (Bool-cases (get_or fin (j / 8) 0 == 0)) [
  | inl e ↦
      let none_set : get_or fin (j / 8) 0 ≡ 0 = ground arith in
      let bit : 0 / 2 ^ (j % 8) % 2 ≡ 1 = subst (λ (x : ℕ). x / 2 ^ (j % 8) % 2 ≡ 1) none_set h in
      absurd (grind (arith, two_pow_pos (j % 8)))
  | inr e ↦ ground arith
]

first-IsWindow :
    (all : List ℕ) (n : ℕ)
    → n ≡ min (length all) 32
    → IsWindow all 0 (slice 0 n all ++ replicate (32 - n) 0)
unfolding IsWindow
first-IsWindow all n e j l = elim (Bool-cases (ltb j n)) [
  | inl h ↦
      let front : j < n = ground arith in
      get_or_front (take n all) (replicate (32 - n) 0) j
        (omega (arith, length-take n all, e, front))
      ∙ get_or-take n j all front
      ∙ ap (λ (x : ℕ). get_or all x 0) (omega arith)
  | inr h ↦
      let behind : n ≤ j = ground arith in
      get_or_behind (take n all) (replicate (32 - n) 0) (j - n) j
        (omega (arith, length-take n all, e, behind))
      ∙ get_or-replicate (32 - n) (j - n) 0
      ∙ sym (get_or_past all (0 + j) (omega (arith, e, behind, l)))
]

module _ (ms : MessageStream) where
  open ms use {Stream, get_position, content, IsValid, seek}

  flush_last :
      (bits : List ℕ) (b : BitBuffer) (s : Stream)
      → Wrote ms 136 bits 7 b s
      → (b' : BitBuffer) × (t : Stream) × (flush ms b s ≡ ok (b', t))
        × IsValid t
        × Holds (content t) 0 bits
        × (length (content t) ≡ (length bits + 7) / 8)
  unfolding flush
  flush_last bits b s w = elim (Bool-cases (b.bit == 0)) [
    | inl e ↦
        let over : b.bit ≡ 0 = ground arith in
        (
          b,
          s,
          rw e refl,
          w.valid,
          Holds_within (content s) b.bytes bits (omega (arith, w.count, over)) w.holds,
          omega (arith, w.count, over),
        )
    | inr e ↦
        let n = (b.bit + 7) / 8 in
        let front = take n b.bytes in
        let long : length front ≡ n = omega (arith, length-take n b.bytes, w.size, w.low) in
        let (t, made, valid, _, _, bytes) =
          write_behind ms front 0 s w.valid w.at_end
            (subst (λ (x : ℕ). HasRoom ms x s) (omega (arith, long)) w.room) in
        let grown : length (content t) ≡ length (content s) + n =
          omega (arith, ap length bytes, length-append (content s) front, long) in
        let joined : content t ++ drop n b.bytes ≡ content s ++ b.bytes =
          ap (λ (c : List ℕ). c ++ drop n b.bytes) bytes
          ∙ append_assoc (content s) front (drop n b.bytes)
          ∙ ap (◌++◌ (content s)) (take-append-drop n b.bytes) in
        (
          record b { bit = 0 },
          t,
          rw (e, made) refl,
          valid,
          Holds_within (content t) (drop n b.bytes) bits (omega (arith, w.count, grown))
              (subst (λ (x : List ℕ). Holds x 0 bits) (sym joined) w.holds),
          ground (arith, w.count, grown),
        )
  ]

  pub start_Wrote :
      (n : ℕ) (s : Stream)
      → IsValid s
      → content s ≡ []
      → get_position s ≡ 0
      → HasRoom ms ((n + 7) / 8) s
      → Wrote ms 136 [] (n + 7) empty_buffer s
  unfolding IsClean Holds
  start_Wrote n s v none pos room = record {
    valid = v;
    at_end = omega (arith, pos, ap length none);
    clean = λ p. absurd (omega arith);
    size = length-replicate {A = ℕ} 32 0;
    low = omega arith;
    holds = tt;
    count = omega (arith, ap length none);
    room = subst (λ (x : ℕ). HasRoom ms (x / 8) s) (omega arith) room;
  }

  write_message-Holds :
      (vs : List Value) (s : Stream)
      → AreValues vs
      → IsValid s
      → content s ≡ []
      → get_position s ≡ 0
      → HasRoom ms ((length (message_bits vs) + 7) / 8) s
      → (t : Stream) × (write_message ms vs s ≡ ok t)
        × IsValid t
        × Holds (content t) 0 (message_bits vs)
        × (length (content t) ≡ (length (message_bits vs) + 7) / 8)
  unfolding write_message AreValues
  write_message-Holds vs s all v none pos room =
      let (b, s1, ran, w) =
        write_values-Wrote ms vs [] 7 empty_buffer s all
          (start_Wrote (length (message_bits vs)) s v none pos room) in
      let (b', t, on, valid, holds, long) = flush_last (message_bits vs) b s1 w in
      (t, rw (ran, on) refl, valid, holds, long)

  reset-Reads :
      (all : List ℕ) (t : Stream)
      → IsValid t
      → content t ≡ all
      → length all < size_mod
      → (b : BitBuffer) × (s : Stream) × (reset ms (seek 0 begin t) ≡ ok (b, s))
        × Reads ms all 0 147 b s
  unfolding reset IsWindow
  reset-Reads all t v whole small =
      let (valid, front, same) = ms.seek_lem 0 t v (omega arith) in
      let r = seek 0 begin t in
      let long : ms.get_length r ≡ length all =
        omega (arith, ms.length-content r valid, ap length (same ∙ whole)) in
      let n = min (sub_size (ms.get_length r) (get_position r)) 32 in
      let some_n : n ≡ min (length all) 32 = omega (arith, long, front, small) in
      let bytes = slice 0 n all ++ replicate {A = ℕ} (32 - n) 0 in
      let fits : get_position r + n ≤ ms.get_length r = omega (arith, long, front, some_n) in
      let (read, moved, kept) = ms.seek_lem (get_position r + n) r valid fits in
      let taken : length (slice 0 n all) ≡ n = omega (arith, length-take n all, some_n) in
      (
        record { bytes = bytes; bit = 0 },
        seek (get_position r + n) begin r,
        rw (ms.read_lem n r valid fits, front, same ∙ whole) refl,
        record {
          valid = read;
          whole = kept ∙ same ∙ whole;
          size = omega (
            arith,
            length-append (slice 0 n all) (replicate {A = ℕ} (32 - n) 0),
            length-replicate {A = ℕ} (32 - n) 0,
            taken,
            some_n,
          );
          base = 0;
          place = refl;
          low = omega arith;
          position = omega (arith, moved, front, some_n);
          window = first-IsWindow all n some_n;
        },
      )

  -- Values of any widths, each of as many bytes as its width needs and with no bit above it, are
  -- written behind one another as a message to a valid, empty stream at its start that takes the
  -- bytes the bits fill. That succeeds; read from the start of the stream with the same widths,
  -- the message gives the same values and no exception, if a one bit stands in its last byte and
  -- the number of its bytes is below 2^64.
  pub read_message-write_message :
      (vs : List Value) (s : Stream) (j : ℕ)
      → AreValues vs
      → IsValid s
      → content s ≡ []
      → get_position s ≡ 0
      → HasRoom ms ((length (message_bits vs) + 7) / 8) s
      → (length (message_bits vs) + 7) / 8 < size_mod
      → (length (message_bits vs) - 1) / 8 ≡ j / 8
      → j < length (message_bits vs)
      → get_or (message_bits vs) j 0 ≡ 1
      → (t : Stream) × (write_message ms vs s ≡ ok t)
        × (b : BitBuffer) × (s' : Stream) × (read_message ms (widths vs) (seek 0 begin t)
            ≡ ok (vs, b, s'))
  unfolding read_message AreValues
  read_message-write_message vs s j all v none pos room small final inside one =
      let (t, ran, valid, holds, long) = write_message-Holds vs s all v none pos room in
      let bytes = content t in
      let end : length bytes - 1 ≡ j / 8 = omega (arith, long, final, inside) in
      let set_bit : bit_at bytes j ≡ 1 =
        Holds_at bytes (message_bits vs) 0 j j holds inside (omega arith) ∙ one in
      let last : 0 < get_or bytes (length bytes - 1) 0 = rw end (one_in_byte bytes j set_bit) in
      let few : length bytes < size_mod = omega (arith, long, small) in
      let (b, s1, reset, w) = reset-Reads bytes t valid refl few in
      let (b', s', read, _) =
        read_values-Reads ms bytes few last vs 0 b s1 all (omega (arith, long)) holds w in
      (t, ran, b', s', rw (reset, read) refl)
