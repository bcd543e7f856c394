-- ===== src/Stream/Fixed/Laws.antt =====
-- `FixedDataMessageStream` keeps its invariant, and is an `IMessageStream`.
use mohpc.Base.{
  ℕ, ◌+◌, ◌≤◌, ◌≡◌, refl, sym, arith, List, [], ◌∷◌, length, min, slice, splice, overwrite, ok,
  length-take, length-splice, slice-take, take-splice-overwrite, overwrite_none,
}
use mohpc.Stream.{SeekPos, begin}
use mohpc.Stream.Interface.{MessageStream}
use mohpc.Stream.Fixed.{FixedStream, advance, read, write, seek, get_length, get_position, content}
use mohpc.Stream.Fixed.{IsValid, Fits}

pub seek-IsValid :
    (offset : ℕ) (from : SeekPos) (s : FixedStream) → IsValid s → IsValid (seek offset from s)
unfolding seek
seek-IsValid offset SeekPos.begin s v = ground arith
seek-IsValid offset SeekPos.current s v = ground arith
seek-IsValid offset SeekPos.end s v = ground arith

pub read_inside :
    (n : ℕ) (s : FixedStream)
    → IsValid s
    → get_position s + n ≤ get_length s
    → read n s ≡ ok (slice (get_position s) n (content s), seek (get_position s + n) begin s)
unfolding read seek get_length get_position
read_inside n s v h = ground (arith, slice-take (min s.len s.max_length) s.cur_pos n s.storage)

pub seek_inside :
    (o : ℕ) (s : FixedStream)
    → IsValid s
    → o ≤ get_length s
    → IsValid (seek o begin s)
      × (get_position (seek o begin s) ≡ o)
      × (content (seek o begin s) ≡ content s)
unfolding get_length get_position seek
seek_inside o s v h = ground arith

pub seek-Fits :
    (o n : ℕ) (s : FixedStream) → IsValid s → o + n ≤ get_length s → Fits (seek o begin s) n
unfolding get_length seek
seek-Fits o n s v h = ground arith

pub write_inside :
    (bs : List ℕ) (k : ℕ) (s : FixedStream)
    → IsValid s
    → Fits s (length bs + k)
    → (t : FixedStream) × (write bs s ≡ ok t)
      × IsValid t
      × Fits t k
      × (get_position t ≡ get_position s + length bs)
      × (content t ≡ overwrite (get_position s) bs (content s))
unfolding write get_position
write_inside [] k s v h = (s, refl, v, omega arith, omega arith, sym (overwrite_none _ _))
write_inside (b ∷ bs) k s v h = (
  advance (splice s.cur_pos (b ∷ bs) s.storage) (s.cur_pos + length (b ∷ bs)) s,
  ground arith,
  ground (arith, length-splice s.cur_pos (b ∷ bs) s.storage),
  omega arith,
  refl,
  take-splice-overwrite _ (min s.len s.max_length) s.cur_pos (b ∷ bs) s.storage (omega arith)
      (omega arith) (ground arith),
)

pub position_le : (s : FixedStream) → IsValid s → get_position s ≤ get_length s
unfolding get_position get_length
position_le s v = omega arith

pub length-content : (s : FixedStream) → IsValid s → length (content s) ≡ get_length s
unfolding get_length
length-content s v = omega (arith, length-take (min s.len s.max_length) s.storage)

-- The class as an implementation of the interface.
abbrev pub fixed_stream : MessageStream
fixed_stream = record {
  Stream = FixedStream;
  read = read;
  write = write;
  seek = seek;
  get_position = get_position;
  get_length = get_length;
  content = content;
  IsValid = IsValid;
  Fits = Fits;
  length-content = length-content;
  position_le = position_le;
  read_lem = read_inside;
  seek_lem = seek_inside;
  seek-Fits = seek-Fits;
  write_lem = write_inside;
}
