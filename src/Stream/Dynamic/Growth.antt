-- ===== src/Stream/Dynamic/Growth.antt =====
-- How `DynamicDataMessageStream` grows, and what it keeps when it does.
use mohpc.Base.{
  ℕ, ◌+◌, ◌*◌, ◌%◌, ◌≤◌, ◌<◌, ◌^◌, ◌≡◌, sym, ap, ◌∙◌, arith, List, [], length, take, ok, size_mod,
  sub_size, add_size, Bool, slice-take, lt→ltb, le→not_ltb, true, false,
}
use native.Mathlib.Decide.{dec_le}
use mohpc.Stream.{begin, current}
use mohpc.Stream.Interface.RoundTrip
use mohpc.Stream.Dynamic.{
  DynamicStream, read, write, seek, clear, reserve, reallocate, move_to, get_length, get_position,
  buffer, carry_over, content, target, IsValid, Fits,
}
use mohpc.Stream.Dynamic.Laws.{dynamic_stream, carry_over-keeps}

module _ (uninit : ℕ → List ℕ) (length-uninit : (n : ℕ) → length (uninit n) ≡ n) where
  -- A stream over a larger buffer that took over the old one.
  regrown :
      (n l : ℕ) (s : DynamicStream)
      → IsValid s
      → s.max_length ≤ n
      → l ≤ s.len
      → (length (carry_over uninit n s.max_length s.storage) ≡ n)
        × (take l (carry_over uninit n s.max_length s.storage) ≡ take l (buffer s.storage))
  regrown n l s v h k =
      let (long, kept) =
        carry_over-keeps uninit length-uninit n s.max_length s.storage v.backed h in
      (
        long,
        sym (slice-take s.max_length 0 l (carry_over uninit n s.max_length s.storage) (omega arith))
            ∙ ap (take l) kept,
      )

  seek_past_buffer :
      (o : ℕ) (s : DynamicStream)
      → s.len < o
      → s.max_length < o
      → o ≤ 2 ^ 60
      → seek uninit o begin s
        ≡ reallocate uninit ((s.max_length + sub_size o s.max_length) * 2 % size_mod) (move_to o s)
  unfolding seek
  seek_past_buffer o s h k b = rw (lt→ltb _ _ h) (rw (lt→ltb _ _ k))

  seek_in_buffer :
      (o : ℕ) (s : DynamicStream)
      → s.len < o
      → o ≤ s.max_length
      → seek uninit o begin s ≡ move_to o s
  unfolding seek
  seek_in_buffer o s h k = rw (lt→ltb _ _ h) (rw (le→not_ltb _ _ k))

  -- A seek past the end of a valid stream, up to 2^60, grows it to there: the position and the
  -- length are the offset, the stream stays valid, and what was readable stays as it was.
  pub seek-grows :
      (o : ℕ) (s : DynamicStream)
      → IsValid s
      → get_length s < o
      → o ≤ 2 ^ 60
      → IsValid (seek uninit o begin s)
        × (get_position (seek uninit o begin s) ≡ o)
        × (get_length (seek uninit o begin s) ≡ o)
        × (take (get_length s) (content (seek uninit o begin s)) ≡ content s)
  unfolding get_length get_position
  seek-grows o s v h b = elim (dec_le o s.max_length) [
    | yes inside ↦
        rw (seek_in_buffer o s h inside)
          (unfold move_to in ground (arith, slice-take o 0 s.len (buffer s.storage)))
    | no past ↦ rw (seek_past_buffer o s h (omega arith) b) (
        unfold reallocate move_to in
        ground (
          arith,
          slice-take o 0 s.len (
              carry_over uninit ((s.max_length + sub_size o s.max_length) * 2 % size_mod)
                s.max_length s.storage),
          regrown ((s.max_length + sub_size o s.max_length) * 2 % size_mod) s.len s v,
        ))
  ]

  -- A write that ends below 2^60 succeeds, growing the buffer where it must, and what it puts down, a
  -- seek back and a read of as many bytes return.
  pub read-write_grown :
      (bs : List ℕ) (s : DynamicStream)
      → IsValid s
      → Fits s (length bs)
      → (t : DynamicStream) × (write uninit bs s ≡ ok t)
        × (read (length bs) (seek uninit (get_position s) begin t)
            ≡ ok (
              bs,
              seek uninit (get_position s + length bs) begin (seek uninit (get_position s) begin t),
            ))
  read-write_grown bs s v h = RoundTrip.read_back (dynamic_stream uninit length-uninit) bs s v h

  -- `reserve` never shrinks: the buffer then has room for `size` bytes, and content, length and
  -- position are as they were. `clear` leaves a valid stream with nothing to read.
  pub reserve-clear :
      (size : ℕ) (free_memory : Bool) (s : DynamicStream)
      → IsValid s
      → size ≤ 2 ^ 62
      → IsValid (reserve uninit size s)
        × (size ≤ (reserve uninit size s).max_length)
        × (content (reserve uninit size s) ≡ content s)
        × (get_position (reserve uninit size s) ≡ get_position s)
        × IsValid (clear free_memory s)
        × (content (clear free_memory s) ≡ [])
  unfolding get_position reserve clear
  reserve-clear size true s v h = ground (arith, regrown size s.len s v)
  reserve-clear size false s v h = ground (arith, regrown size s.len s v)

  -- A seek from the current position is one from the start.
  pub seek-current :
      (n : ℕ) (s : DynamicStream)
      → IsValid s
      → n ≤ 2 ^ 60
      → seek uninit n current s ≡ seek uninit (get_position s + n) begin s
  unfolding seek get_position target
  seek-current n s v h =
      let place : add_size s.cur_pos n ≡ s.cur_pos + n = omega (arith, v.in_length, v.small) in
      ap (λ (o : ℕ). seek uninit o begin s) place
