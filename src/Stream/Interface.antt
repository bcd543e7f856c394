-- ===== src/Stream/Interface.antt =====
-- `IMessageStream` of include/MOHPC/Utility/Misc/MSG/Stream.h: the operations that a client of a
-- stream calls, and what they promise over the bytes that the stream holds.
pub mod RoundTrip
use mohpc.Base.{ℕ, ◌+◌, ◌≤◌, ◌≡◌, List, length, slice, overwrite, Result, ok}
use mohpc.Stream.{StreamError, SeekPos, begin}

pub record MessageStream : Type 1 where
  pub Stream : Type 0
  pub read : ℕ → Stream → Result StreamError (List ℕ × Stream)
  pub write : List ℕ → Stream → Result StreamError Stream
  pub seek : ℕ → SeekPos → Stream → Stream
  pub get_position : Stream → ℕ
  pub get_length : Stream → ℕ
  -- The readable bytes; that the stream is well formed; that so many bytes may be written.
  pub content : Stream → List ℕ
  pub IsValid : Stream → Type 0
  pub Fits : Stream → ℕ → Type 0
  pub length-content : (s : Stream) → IsValid s → length (content s) ≡ get_length s
  pub position_le : (s : Stream) → IsValid s → get_position s ≤ get_length s
  pub read_lem :
      (n : ℕ) (s : Stream)
      → IsValid s
      → get_position s + n ≤ get_length s
      → read n s ≡ ok (slice (get_position s) n (content s), seek (get_position s + n) begin s)
  pub seek_lem :
      (o : ℕ) (s : Stream)
      → IsValid s
      → o ≤ get_length s
      → IsValid (seek o begin s)
        × (get_position (seek o begin s) ≡ o)
        × (content (seek o begin s) ≡ content s)
  pub seek-Fits :
      (o n : ℕ) (s : Stream) → IsValid s → o + n ≤ get_length s → Fits (seek o begin s) n
  pub write_lem :
      (bs : List ℕ) (k : ℕ) (s : Stream)
      → IsValid s
      → Fits s (length bs + k)
      → (t : Stream) × (write bs s ≡ ok t)
        × IsValid t
        × Fits t k
        × (get_position t ≡ get_position s + length bs)
        × (content t ≡ overwrite (get_position s) bs (content s))
