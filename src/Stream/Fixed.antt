-- ===== src/Stream/Fixed.antt =====
-- `FixedDataMessageStream` of mohpc-lib/Utility/Misc/MSG/Stream.cpp: a stream over a buffer of the
-- caller's.
pub mod Laws
pub mod Bounds
use mohpc.Base.{
  ℕ, ◌+◌, ◌≤◌, ◌^◌, ◌≡◌, List, length, min, ltb, leb, ◌==◌, if◌then◌else◌, take, add_size, sub_size,
  Result, ok, err, ◌>>=◌, [],
}
use mohpc.Stream.{StreamError, overflow, reading, writing, SeekPos, begin, current, end}
use mohpc.Stream.{copy_out, copy_in}

-- `len` is the field `length`.
pub record FixedStream : Type 0 where
  pub storage : List ℕ
  pub len : ℕ
  pub max_length : ℕ
  pub cur_pos : ℕ

pub make_stream : List ℕ → ℕ → ℕ → FixedStream
make_stream memory size readable_length = record {
  storage = memory;
  len = readable_length;
  max_length = size;
  cur_pos = 0;
}

-- `Read`
unfoldable pub read : ℕ → FixedStream → Result StreamError (List ℕ × FixedStream)
read n s =
    if n == 0
    then ok ([], s)
    else if ltb (min s.len s.max_length) (sub_size (add_size s.cur_pos n) 1)
    then err (overflow reading)
    else do
      bytes ← copy_out s.storage s.cur_pos n
      ok (bytes, record s { cur_pos = add_size s.cur_pos n })

advance : List ℕ → ℕ → FixedStream → FixedStream
advance memory pos s = record s {
  storage = memory;
  cur_pos = pos;
  len = if ltb s.len pos then pos else s.len;
}

-- `Write`
unfoldable pub write : List ℕ → FixedStream → Result StreamError FixedStream
unfolding advance
write bs s =
    if length bs == 0
    then ok s
    else if ltb s.max_length (add_size s.cur_pos (length bs))
    then err (overflow writing)
    else do
      memory ← copy_in s.storage s.cur_pos bs
      ok (advance memory (add_size s.cur_pos (length bs)) s)

target : ℕ → SeekPos → FixedStream → ℕ
target offset begin s = min s.max_length offset
target offset current s = min s.max_length (add_size s.cur_pos offset)
target offset end s = min s.max_length (sub_size s.len offset)

-- `Seek`
unfoldable pub seek : ℕ → SeekPos → FixedStream → FixedStream
unfolding target
seek offset from s =
    let pos = target offset from s in
    record s { cur_pos = pos; len = if leb s.len pos then pos else s.len }

unfoldable pub get_length : FixedStream → ℕ
get_length s = min s.len s.max_length

unfoldable pub get_position : FixedStream → ℕ
get_position s = s.cur_pos

-- The readable bytes.
abbrev pub content : FixedStream → List ℕ
content s = take (min s.len s.max_length) s.storage

-- The buffer has `maxLength` bytes, and the position is within what is readable.
pub record IsValid (s : FixedStream) : Type 0 where
  pub backed : length s.storage ≡ s.max_length
  pub small : s.max_length ≤ 2 ^ 60
  pub in_length : s.cur_pos ≤ s.len
  pub in_storage : s.cur_pos ≤ s.max_length

abbrev pub Fits : FixedStream → ℕ → Type 0
Fits s n = s.cur_pos + n ≤ s.max_length
