-- ===== src/Stream.antt =====
-- The byte streams of include/MOHPC/Utility/Misc/MSG/Stream.h: what both classes share.
-- A byte is a number; a buffer is the list of its bytes.
pub mod Interface
pub mod Fixed
pub mod Dynamic
pub mod Copy
mod Tests
use mohpc.Base.{ℕ, ◌+◌, List, Bool, length, slice, splice, leb, if◌then◌else◌, Result, ok, err}

-- `StreamOverflowException::Mode`
pub data Mode : Type 0 where
  reading writing : Mode

-- `StreamOverflowException`, and a copy that leaves its buffer, which C++ does not define.
pub data StreamError : Type 0 where
  overflow : Mode → StreamError
  out_of_storage : StreamError

-- `IMessageStream::SeekPos`
pub data SeekPos : Type 0 where
  begin current end : SeekPos

-- `std::memcpy(data, storage + i, n)`
abbrev pub copy_out : List ℕ → ℕ → ℕ → Result StreamError (List ℕ)
copy_out storage i n =
    if leb (i + n) (length storage) then ok (slice i n storage) else err out_of_storage

-- `std::memcpy(storage + i, data, n)`
abbrev pub copy_in : List ℕ → ℕ → List ℕ → Result StreamError (List ℕ)
copy_in storage i bs =
    if leb (i + length bs) (length storage) then ok (splice i bs storage) else err out_of_storage
