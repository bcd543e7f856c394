-- ===== src/Codec/Writer.antt =====
-- What `Encode` adds to a message: the bits that it has written lie in the stream and, behind them, in
-- the buffer.
use mohpc.Base.{
  ℕ, ◌+◌, ◌*◌, ◌/◌, ◌%◌, ◌≤◌, ◌<◌, ◌≡◌, refl, sym, ap, subst, ◌∙◌, inl, inr, arith, List, ◌++◌,
  true, false, Bool-cases, length, length-append, length-take, length-drop, length-replicate, take,
  drop, replicate, overwrite_past, ltb, Result, ok, overwrite,
}
use mohpc.Huffman.{BitBuffer, bit_at}
use mohpc.Huffman.Bits.{IsClean, Holds, Extends, Holds_kept, add_bits, AreBits, add_bits-Extends}
use mohpc.Huffman.Codes.{bits_of, length-bits_of, bits_of-AreBits, offset_transmit_bits}
use mohpc.Huffman.Places.{
  kept_behind, append-take-drop, get_or_front, get_or-drop, Holds_front, Holds_behind, Holds-append,
}
use mohpc.Codec.{flush_bits, encode_byte}
use mohpc.Stream.Interface.{MessageStream}

ok-injective : {E A : Type 0} {a b : A} → ◌≡◌ {A = Result E A} (ok a) (ok b) → a ≡ b
ok-injective e = ground (arith, e)

module _ (ms : MessageStream) where
  open ms use {Stream, write, get_position, content, IsValid, Fits, write_lem}

  -- The stream takes any number of bytes up to one.
  unfoldable pub HasRoom : ℕ → Stream → Type 0
  HasRoom n s = (m : ℕ) → m ≤ n → Fits s m

  pub write_behind :
      (bs : List ℕ) (n : ℕ) (s : Stream)
      → IsValid s
      → get_position s ≡ length (content s)
      → HasRoom (length bs + n) s
      → (t : Stream) × (write bs s ≡ ok t)
        × IsValid t
        × HasRoom n t
        × (get_position t ≡ get_position s + length bs)
        × (content t ≡ content s ++ bs)
  unfolding HasRoom
  write_behind bs n s v pos room =
      let (t, made, valid, _, moved, bytes) =
        write_lem bs 0 s v (room (length bs + 0) (omega arith)) in
      let fits : (m : ℕ) → m ≤ n → Fits t m = λ m l.
        let (u, also, _, f, _, _) = write_lem bs m s v (room (length bs + m) (omega arith)) in
        subst (λ (x : Stream). Fits x m) (ok-injective (sym also ∙ made)) f in
      (
        t,
        made,
        valid,
        fits,
        moved,
        bytes ∙ ap (λ (x : ℕ). overwrite x bs (content s)) pos ∙ overwrite_past (content s) bs,
      )

  -- `bits` have been written, the last ones below `limit` in the buffer, and there is room for `more`.
  pub record Wrote (limit : ℕ) (bits : List ℕ) (more : ℕ) (b : BitBuffer) (s : Stream)
      : Type 0 where
    pub valid : IsValid s
    pub at_end : get_position s ≡ length (content s)
    pub clean : IsClean b
    pub size : length b.bytes ≡ 32
    pub low : b.bit < limit
    pub holds : Holds (content s ++ b.bytes) 0 bits
    pub count : length bits ≡ 8 * length (content s) + b.bit
    pub room : HasRoom ((b.bit + more) / 8) s

  extend_Wrote :
      (bits new : List ℕ) (more : ℕ) (b : BitBuffer) (s : Stream)
      → AreBits new
      → length new ≤ 11
      → Wrote 136 bits (length new + more) b s
      → Wrote 147 (bits ++ new) more (add_bits new b) s
  extend_Wrote bits new more b s only short w =
      let e : Extends new b (add_bits new b) =
        add_bits-Extends new b only w.clean (omega (arith, w.low, w.size)) in
      let t = add_bits new b in
      let same : (k : ℕ)
          → k < length bits
          → bit_at (content s ++ t.bytes) k ≡ bit_at (content s ++ b.bytes) k =
        λ k l. kept_behind (content s) b.bytes t.bytes b.bit k (omega (arith, w.count)) e.kept in
      record {
        valid = w.valid;
        at_end = w.at_end;
        clean = e.clean;
        size = e.room ∙ w.size;
        low = omega (arith, e.moved, w.low);
        holds =
            Holds-append (content s ++ t.bytes) bits new 0 (length bits) (omega arith)
              (Holds_kept (content s ++ b.bytes) (content s ++ t.bytes) bits 0 (length bits)
                (omega arith) same w.holds)
              (Holds_behind (content s) t.bytes new b.bit (length bits) w.count e.there);
        count = omega (arith, length-append bits new, w.count, e.moved);
        room = subst (λ (x : ℕ). HasRoom (x / 8) s) (omega (arith, e.moved)) w.room;
      }

  flushed : BitBuffer → BitBuffer
  flushed t = record {
    bytes = drop (t.bit / 8) t.bytes ++ replicate (t.bit / 8) 0;
    bit = t.bit % 8;
  }

  flushed-IsClean :
      (t : BitBuffer) → length t.bytes ≡ 32 → t.bit < 147 → IsClean t → IsClean (flushed t)
  unfolding IsClean flushed
  flushed-IsClean t size low clean p =
      let first : t.bit % 8 / 8 ≡ 0 = omega arith in
      let place : t.bit % 8 % 8 ≡ t.bit % 8 = omega arith in
      let long : 0 < length (drop (t.bit / 8) t.bytes) =
        omega (arith, length-drop (t.bit / 8) t.bytes, size, low) in
      rw
        (
          first,
          place,
          get_or_front (drop (t.bit / 8) t.bytes) (replicate (t.bit / 8) 0) 0 long,
          get_or-drop (t.bit / 8) 0 (t.bit / 8) t.bytes (omega arith),
        )
        (clean (omega arith))

  flush_Wrote :
      (bits : List ℕ) (more : ℕ) (t : BitBuffer) (s : Stream)
      → Wrote 147 bits more t s
      → (b : BitBuffer) × (s' : Stream) × (flush_bits ms t s ≡ ok (b, s'))
        × Wrote 136 bits more b s'
  unfolding flush_bits HasRoom flushed
  flush_Wrote bits more t s w = elim (Bool-cases (ltb 16 (t.bit / 8))) [
    | inl e ↦
        let n = t.bit / 8 in
        let over : ltb (length t.bytes / 2) n ≡ true = rw (w.size) e in
        let long : length (take n t.bytes) ≡ n =
          omega (arith, length-take n t.bytes, w.size, w.low) in
        let (s', made, valid, fits, moved, bytes) =
          write_behind (take n t.bytes) ((t.bit % 8 + more) / 8) s w.valid w.at_end
            (λ m l. w.room m (omega (arith, l, long))) in
        let grown : length (content s') ≡ length (content s) + n =
          omega (arith, ap length bytes, length-append (content s) (take n t.bytes), long) in
        (
          flushed t,
          s',
          rw (over, made) refl,
          record {
            valid = valid;
            at_end = omega (arith, moved, grown, long, w.at_end);
            clean = flushed-IsClean t w.size w.low w.clean;
            size = omega (
              arith,
              length-append (drop n t.bytes) (replicate n 0),
              length-drop n t.bytes,
              length-replicate {A = ℕ} n 0,
              w.size,
              w.low,
            );
            low = omega arith;
            holds =
                subst (λ (x : List ℕ). Holds x 0 bits)
                  (sym (
                    ap (λ (c : List ℕ). c ++ (drop n t.bytes ++ replicate n 0)) bytes
                    ∙ append-take-drop (content s) t.bytes (replicate n 0) n))
                  (Holds_front (content s ++ t.bytes) (replicate n 0) bits 0
                    (omega (arith, length-append (content s) t.bytes, w.count, w.size, w.low))
                    w.holds);
            count = omega (arith, w.count, grown);
            room = fits;
          },
        )
    | inr e ↦
        let stay : ltb (length t.bytes / 2) (t.bit / 8) ≡ false = rw (w.size) e in
        (
          t,
          s,
          rw stay refl,
          record {
            valid = w.valid;
            at_end = w.at_end;
            clean = w.clean;
            size = w.size;
            low = ground arith;
            holds = w.holds;
            count = w.count;
            room = w.room;
          },
        )
  ]

  -- Bits that are added and flushed.
  pub write_new :
      (bits new : List ℕ) (more : ℕ) (b : BitBuffer) (s : Stream)
      → AreBits new
      → length new ≤ 11
      → Wrote 136 bits (length new + more) b s
      → (b' : BitBuffer) × (s' : Stream) × (flush_bits ms (add_bits new b) s ≡ ok (b', s'))
        × Wrote 136 (bits ++ new) more b' s'
  write_new bits new more b s only short w =
      flush_Wrote (bits ++ new) more (add_bits new b) s
        (extend_Wrote bits new more b s only short w)

  -- A byte is written as its code.
  pub encode_byte-Wrote :
      (bits : List ℕ) (v more : ℕ) (b : BitBuffer) (s : Stream)
      → v < 256
      → Wrote 136 bits (length (bits_of v) + more) b s
      → (b' : BitBuffer) × (s' : Stream) × (encode_byte ms v b s ≡ ok (b', s'))
        × Wrote 136 (bits ++ bits_of v) more b' s'
  unfolding encode_byte
  encode_byte-Wrote bits v more b s small w =
      let (_, short) = length-bits_of v small in
      let (b', s', ran, w') =
        write_new bits (bits_of v) more b s (bits_of-AreBits v small) short w in
      (b', s', rw (offset_transmit_bits v b small) ran, w')
