-- ===== src/Codec.antt =====
-- The codecs of mohpc-lib/Utility/Misc/MSG/Codec.cpp, between a value in memory, the buffer of bits of
-- a message (`bitBuffer`, `bit` and, as its length, `bufsize`) and the message's stream. The bytes of a
-- value are a list, from the lowest on.
pub mod Writer
pub mod Rows
pub mod Reader
pub mod Refill
pub mod Decoder
pub mod Values
pub mod RoundTrip
use mohpc.Base.{
  ℕ, zero, suc, ◌+◌, ◌-◌, ◌*◌, ◌/◌, ◌%◌, ◌^◌, min, List, [], ◌∷◌, ◌++◌, Bool, true, false, ◌&&◌,
  ◌||◌, Option, none, some, length, take, drop, slice, replicate, get_or, ltb, ◌==◌, if◌then◌else◌,
  bit_or, sub_size, Result, ok, err, ◌>>=◌,
}
use mohpc.Huffman.{BitBuffer, add_bit, get_bit, offset_transmit, offset_receive}
use mohpc.Huffman.Table.{compression_huff, decompression_huff}
use mohpc.Stream.{StreamError, overflow, reading}
use mohpc.Stream.Interface.{MessageStream}

-- `BadBitsException`, an exception of the stream, and a tree without an end.
pub data CodecError : Type 0 where
  bad_bits : ℕ → CodecError
  stream_error : StreamError → CodecError
  endless : CodecError

abbrev pub from_stream : {A : Type 0} → Result StreamError A → Result CodecError A
from_stream (ok a) = ok a
from_stream (err e) = err (stream_error e)

abbrev pub from_tree : {A : Type 0} → Option A → Result CodecError A
from_tree none = err endless
from_tree (some a) = ok a

-- The loop of `Encode` over the low bits of a byte, and that of `Decode`.
pub add_low : ℕ → ℕ → BitBuffer → BitBuffer
unfolding add_bit
add_low zero v b = b
add_low (suc nbits) v b = add_low nbits (v / 2) (add_bit (v % 2) b)

pub get_low : ℕ → ℕ → ℕ → BitBuffer → ℕ × BitBuffer
unfolding get_bit
get_low zero i v b = (v, b)
get_low (suc nbits) i v b =
    let (one, b') = get_bit b in get_low nbits (i + 1) (bit_or v (one * 2 ^ i) % 256) b'

-- `std::all_of(bitData, bitData + bitDataSize, …)`
pub all_zero : List ℕ → Bool
all_zero [] = true
all_zero (v ∷ bytes) = (v == 0) && all_zero bytes

module _ (ms : MessageStream) where
  -- `FlushBits`
  pub flush_bits : BitBuffer → ms.Stream → Result CodecError (BitBuffer × ms.Stream)
  flush_bits b s =
      let n = b.bit / 8 in
      if ltb (length b.bytes / 2) n
      then (do
        s' ← from_stream (ms.write (take n b.bytes) s)
        ok (record { bytes = drop n b.bytes ++ replicate n 0; bit = b.bit % 8 }, s'))
      else ok (b, s)

  -- What `ReadBits` reads behind the moved bytes.
  next_bytes : ℕ → List ℕ → ms.Stream → Result CodecError (List ℕ × ms.Stream)
  unfolding all_zero
  next_bytes remaining moved s =
      if remaining == 0
      then (if all_zero moved then err (stream_error (overflow reading)) else ok ([], s))
      else from_stream (ms.read remaining s)

  -- `ReadBits`
  unfoldable pub read_bits : BitBuffer → ms.Stream → Result CodecError (BitBuffer × ms.Stream)
  unfolding next_bytes
  read_bits b s =
      let n = b.bit / 8 in
      let kept = drop n b.bytes in
      let moved = kept ++ drop (length b.bytes - n) b.bytes in
      let remaining = min n (sub_size (ms.get_length s) (ms.get_position s)) in
      if ltb (length b.bytes / 2) n
      then (do
        (bs, s') ← next_bytes remaining moved s
        ok (record { bytes = kept ++ (bs ++ replicate (n - remaining) 0); bit = b.bit % 8 }, s'))
      else ok (b, s)

  -- One byte by its code.
  pub encode_byte : ℕ → BitBuffer → ms.Stream → Result CodecError (BitBuffer × ms.Stream)
  unfolding flush_bits
  encode_byte value b s = do
    b' ← from_tree (offset_transmit compression_huff value b)
    flush_bits b' s

  pub decode_byte : BitBuffer → ms.Stream → Result CodecError (ℕ × BitBuffer × ms.Stream)
  unfolding read_bits
  decode_byte b s = do
    (b', s') ← read_bits b s
    (received, b'') ← from_tree (offset_receive decompression_huff b')
    ok (received % 256, b'', s')

  -- The loop over complete bytes; `rounds` is what is left of `remainingBits / 8`.
  pub encode_bytes : ℕ → List ℕ → BitBuffer → ms.Stream → Result CodecError (BitBuffer × ms.Stream)
  unfolding encode_byte
  encode_bytes zero p b s = ok (b, s)
  encode_bytes (suc rounds) p b s = do
    (b', s') ← encode_byte (get_or p 0 0) b s
    encode_bytes rounds (drop 1 p) b' s'

  pub decode_bytes : ℕ → BitBuffer → ms.Stream → Result CodecError (List ℕ × BitBuffer × ms.Stream)
  unfolding decode_byte
  decode_bytes zero b s = ok ([], b, s)
  decode_bytes (suc rounds) b s = do
    (v, b', s') ← decode_byte b s
    (p, b'', s'') ← decode_bytes rounds b' s'
    ok (v ∷ p, b'', s'')

  -- The loop over bytes that lie across two of memory, `*p1` and `*p2`, of which the first has `sub`
  -- bits, 1 to 7, behind it already.
  pub encode_across :
      ℕ → ℕ → List ℕ → BitBuffer → ms.Stream → Result CodecError (BitBuffer × ms.Stream)
  unfolding encode_byte
  encode_across zero sub p b s = ok (b, s)
  encode_across (suc rounds) sub p b s = do
    (b', s') ←
        encode_byte (bit_or (get_or p 0 0 / 2 ^ sub) (get_or p 1 0 * 2 ^ (8 - sub)) % 256) b s
    encode_across rounds sub (drop 1 p) b' s'

  -- `p1` is the byte at `*p1`; the result is the memory from there on.
  pub decode_across :
      ℕ → ℕ → ℕ → BitBuffer → ms.Stream → Result CodecError (List ℕ × BitBuffer × ms.Stream)
  unfolding decode_byte
  decode_across zero sub p1 b s = ok (p1 ∷ [], b, s)
  decode_across (suc rounds) sub p1 b s = do
    (received, b', s') ← decode_byte b s
    (p, b'', s'') ← decode_across rounds sub (received / 2 ^ (8 - sub)) b' s'
    ok (bit_or p1 (received * 2 ^ sub) % 256 ∷ p, b'', s'')

  -- `CBitCodec::Encode`. The loop across bytes runs while `bitNum < remainingBits`, in steps of 8 from
  -- `bits & 7`: as often as there are complete bytes.
  unfoldable pub encode :
      List ℕ → ℕ → BitBuffer → ms.Stream → Result CodecError (BitBuffer × ms.Stream)
  unfolding encode_bytes encode_across add_low flush_bits
  encode buf bits b s = if bits % 8 == 0 then encode_bytes (bits / 8) buf b s else (do
    (b', s') ← flush_bits (add_low (bits % 8) (get_or buf 0 0) b) s
    encode_across (bits / 8) (bits % 8) buf b' s')

  -- `CBitCodec::Decode`: the bytes that it writes to `data`.
  unfoldable pub decode :
      ℕ → BitBuffer → ms.Stream → Result CodecError (List ℕ × BitBuffer × ms.Stream)
  unfolding decode_bytes decode_across get_low read_bits
  decode bits b s = if bits % 8 == 0 then decode_bytes (bits / 8) b s else (do
    (b', s') ← read_bits b s
    decode_across (bits / 8) (bits % 8) (get_low (bits % 8) 0 0 b').0 (get_low (bits % 8) 0 0 b').1
        s')
