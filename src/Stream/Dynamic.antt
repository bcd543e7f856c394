-- ===== src/Stream/Dynamic.antt =====
-- `DynamicDataMessageStream` of mohpc-lib/Utility/Misc/MSG/Stream.cpp: a stream over a buffer of its
-- own, which grows. `uninit n` stands for what `new uint8_t[n]` holds before anything is written.
pub mod Laws
pub mod Growth
use mohpc.Base.{
  ℕ, ◌+◌, ◌*◌, ◌%◌, ◌≤◌, ◌^◌, ◌≡◌, List, [], length, min, ltb, ◌==◌, if◌then◌else◌, take, splice,
  add_size, sub_size, size_mod, Bool, true, false, Option, none, some, Result, ok, err, ◌>>=◌,
}
use mohpc.Stream.{StreamError, overflow, reading, SeekPos, begin, current, end}
use mohpc.Stream.{copy_out, copy_in}

-- `storage` is `none` for the null pointer; `len` is the field `length`.
pub record DynamicStream : Type 0 where
  pub storage : Option (List ℕ)
  pub len : ℕ
  pub max_length : ℕ
  pub cur_pos : ℕ

abbrev pub empty_stream : DynamicStream
empty_stream = record { storage = none; len = 0; max_length = 0; cur_pos = 0 }

-- The move constructor: the new stream, and what is left of the other.
pub move_stream : DynamicStream → DynamicStream × DynamicStream
move_stream other = (other, empty_stream)

-- What is written goes to the storage; a null pointer stays one.
abbrev pub stored : Option (List ℕ) → List ℕ → Option (List ℕ)
stored none bytes = none
stored (some old) bytes = some bytes

-- The bytes at `storage`; a null pointer has none.
abbrev pub buffer : Option (List ℕ) → List ℕ
buffer none = []
buffer (some b) = b

-- `Read`
unfoldable pub read : ℕ → DynamicStream → Result StreamError (List ℕ × DynamicStream)
read n s =
    if n == 0
    then ok ([], s)
    else if ltb s.len (sub_size (add_size s.cur_pos n) 1)
    then err (overflow reading)
    else do
      bytes ← copy_out (buffer s.storage) s.cur_pos n
      ok (bytes, record s { cur_pos = add_size s.cur_pos n })

-- `maxLength` once the storage, if there is any, is freed.
abbrev freed : Option (List ℕ) → ℕ → ℕ
freed none max_length = max_length
freed (some b) max_length = 0

-- `clear`
unfoldable pub clear : Bool → DynamicStream → DynamicStream
clear true s = record {
  storage = none;
  len = 0;
  max_length = freed s.storage s.max_length;
  cur_pos = 0;
}
clear false s = record s { len = 0; cur_pos = 0 }

unfoldable pub get_length : DynamicStream → ℕ
get_length s = s.len

unfoldable pub get_position : DynamicStream → ℕ
get_position s = s.cur_pos

-- `Seek` and `Write` record the new position, and the length where the position passed it.
move_to : ℕ → DynamicStream → DynamicStream
move_to pos s = record s { cur_pos = pos; len = if ltb s.len pos then pos else s.len }

target : ℕ → SeekPos → DynamicStream → ℕ
target offset begin s = offset
target offset current s = add_size s.cur_pos offset
target offset end s = sub_size s.len offset

module _ (uninit : ℕ → List ℕ) where
  -- The new buffer, with what of the old one fits.
  pub carry_over : ℕ → ℕ → Option (List ℕ) → List ℕ
  carry_over new_len max_length none = uninit new_len
  carry_over new_len max_length (some old) =
      splice 0 (take (min new_len max_length) old) (uninit new_len)

  -- `reallocate`
  pub reallocate : ℕ → DynamicStream → DynamicStream
  unfolding carry_over
  reallocate new_len s = record s {
    storage = some (carry_over new_len s.max_length s.storage);
    max_length = new_len;
  }

  -- `allocate`
  pub allocate : ℕ → DynamicStream → DynamicStream
  unfolding reallocate
  allocate write_length s = reallocate ((s.max_length + write_length) * 2 % size_mod) s

  -- `reserve`
  unfoldable pub reserve : ℕ → DynamicStream → DynamicStream
  unfolding reallocate
  reserve size s = if ltb s.max_length size then reallocate size s else s

  -- The buffer into which `Write` copies.
  make_room : ℕ → DynamicStream → DynamicStream
  unfolding allocate
  make_room n s = if ltb s.max_length (add_size s.cur_pos n) then allocate n s else s

  -- `Write`
  unfoldable pub write : List ℕ → DynamicStream → Result StreamError DynamicStream
  unfolding make_room move_to
  write bs s =
      let r = make_room (length bs) s in
      do
        memory ← copy_in (buffer r.storage) r.cur_pos bs
        ok (
            move_to (add_size r.cur_pos (length bs))
              (record r { storage = stored r.storage memory }))

  -- `Seek`
  unfoldable pub seek : ℕ → SeekPos → DynamicStream → DynamicStream
  unfolding allocate move_to target
  seek offset from s =
      let t = move_to (target offset from s) s in
      if ltb s.len (target offset from s)
      then if ltb t.max_length t.len then allocate (sub_size t.len t.max_length) t else t
      else t

-- The readable bytes.
abbrev pub content : DynamicStream → List ℕ
content s = take s.len (buffer s.storage)

-- The buffer has `maxLength` bytes, and the position is within the length, which is within it.
pub record IsValid (s : DynamicStream) : Type 0 where
  pub backed : length (buffer s.storage) ≡ s.max_length
  pub in_length : s.cur_pos ≤ s.len
  pub in_storage : s.len ≤ s.max_length
  pub small : s.len ≤ 2 ^ 60
  pub bounded : s.max_length ≤ 2 ^ 62

-- A write that ends below 2^60 is one that the machine's memory can be asked for.
abbrev pub Fits : DynamicStream → ℕ → Type 0
Fits s n = s.cur_pos + n ≤ 2 ^ 60
