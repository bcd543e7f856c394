-- ===== src/Stream/Fixed/Bounds.antt =====
-- `FixedDataMessageStream` at its bounds: what comes back, what throws, and what a read past the
-- end does.
use mohpc.Base.{
  ℕ, ◌+◌, ◌≤◌, ◌<◌, ◌^◌, ◌≡◌, ◌⊎◌, inl, inr, arith, List, length, slice, overwrite, ok, err,
  if◌then◌else◌, ◌==◌,
}
use native.Mathlib.Decide.{dec_le}
use mohpc.Stream.{begin, overflow, reading, writing, out_of_storage}
use mohpc.Stream.Interface.RoundTrip
use mohpc.Stream.Fixed.{FixedStream, read, write, seek, get_length, get_position, content}
use mohpc.Stream.Fixed.{IsValid, Fits}
use mohpc.Stream.Fixed.Laws.{fixed_stream, write_inside}

-- On a valid stream a read of up to 2^60 bytes past the readable length throws, except one that
-- goes exactly one byte past it: that one succeeds where the buffer is longer than the readable
-- length, with a byte that was never readable, and leaves the buffer where it is not.
pub read_past_end :
    (n : ℕ) (s : FixedStream)
    → IsValid s
    → n ≤ 2 ^ 60
    → get_length s < get_position s + n
    → read n s ≡ (
        if get_position s + n == get_length s + 1
        then if get_length s == s.max_length
          then err out_of_storage
          else ok (slice s.cur_pos n s.storage, record s { cur_pos = s.cur_pos + n })
        else err (overflow reading))
unfolding read get_length get_position
read_past_end n s v small h = ground arith

write-throws :
    (bs : List ℕ) (s : FixedStream)
    → IsValid s
    → length bs ≤ 2 ^ 60
    → s.max_length < s.cur_pos + length bs
    → write bs s ≡ err (overflow writing)
unfolding write
write-throws bs s v small h = ground arith

-- On a valid stream a write of up to 2^60 bytes either succeeds, keeps the stream valid, moves the
-- position past the bytes and puts exactly them over the content; or the buffer has no room for
-- all of them, and it throws.
pub write_cases :
    (bs : List ℕ) (s : FixedStream)
    → IsValid s
    → length bs ≤ 2 ^ 60
    → ((t : FixedStream) × (write bs s ≡ ok t)
        × IsValid t
        × (get_position t ≡ get_position s + length bs)
        × (content t ≡ overwrite (get_position s) bs (content s)))
      ⊎ ((s.max_length < get_position s + length bs) × (write bs s ≡ err (overflow writing)))
unfolding get_position
write_cases bs s v small = elim (dec_le (s.cur_pos + length bs) s.max_length) [
  | yes h ↦
      let (t, e, valid, _, moved, bytes) = write_inside bs 0 s v (omega arith) in
      inl (t, e, valid, unfold get_position in moved, bytes)
  | no h ↦ inr (omega arith, write-throws bs s v small (omega arith))
]

-- A write within the buffer succeeds, and what it puts down, a seek back and a read of as many bytes
-- return.
pub read-write :
    (bs : List ℕ) (s : FixedStream)
    → IsValid s
    → Fits s (length bs)
    → (t : FixedStream) × (write bs s ≡ ok t)
      × (read (length bs) (seek (get_position s) begin t)
          ≡ ok (bs, seek (get_position s + length bs) begin (seek (get_position s) begin t)))
read-write bs s v h = RoundTrip.read_back fixed_stream bs s v h
