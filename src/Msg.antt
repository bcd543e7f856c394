-- ===== src/Msg.antt =====
-- The message of mohpc-lib/Utility/Misc/MSG/MSG.cpp with the bit codec: a buffer of 32 bytes before a
-- stream. A message that is written has mode `Writing`, one that is read has mode `Reading`.
mod Values
mod RoundTrip
mod Tests
use mohpc.Base.{
  ℕ, zero, suc, ◌+◌, ◌-◌, ◌/◌, min, List, [], ◌∷◌, ◌++◌, length, take, splice, replicate, ◌==◌,
  if◌then◌else◌, sub_size, Result, ok, ◌>>=◌,
}
use mohpc.Codec.{CodecError, from_stream, encode, decode}
use mohpc.Huffman.{BitBuffer}
use mohpc.Stream.Interface.{MessageStream}

-- `sizeof(bitData)`
abbrev pub buffer_size : ℕ
buffer_size = 32

-- What the constructor leaves in `bit` and `bitData`.
abbrev pub empty_buffer : BitBuffer
empty_buffer = record { bytes = replicate buffer_size 0; bit = 0 }

-- A value that is passed to `SerializeBits`: its bytes, and the number of its bits.
pub record Value : Type 0 where
  pub bytes : List ℕ
  pub width : ℕ

module _ (ms : MessageStream) where
  -- `MSG::Flush`
  pub flush : BitBuffer → ms.Stream → Result CodecError (BitBuffer × ms.Stream)
  flush b s = if b.bit == 0 then ok (b, s) else (do
    s' ← from_stream (ms.write (take ((b.bit + 7) / 8) b.bytes) s)
    ok (record b { bit = 0 }, s'))

  -- `MSG::Reset`
  pub reset : ms.Stream → Result CodecError (BitBuffer × ms.Stream)
  reset s =
      let n = min (sub_size (ms.get_length s) (ms.get_position s)) buffer_size in
      do
        (bs, s') ← from_stream (ms.read n s)
        ok (record { bytes = bs ++ replicate (buffer_size - n) 0; bit = 0 }, s')

  -- `MSG::WriteBits`, of a number of bits that is not negative
  pub write_bits : Value → BitBuffer → ms.Stream → Result CodecError (BitBuffer × ms.Stream)
  unfolding encode
  write_bits v b s = encode ms v.bytes v.width b s

  -- The first bytes, which `MSG::ReadBits` reads while the stream stands at its front.
  first_bytes : BitBuffer → ms.Stream → Result CodecError (BitBuffer × ms.Stream)
  first_bytes b s =
      let n = min (ms.get_length s) buffer_size in
      if ms.get_position s == 0
      then (do
        (bs, s') ← from_stream (ms.read n s)
        ok (record b { bytes = splice 0 bs b.bytes }, s'))
      else ok (b, s)

  -- `MSG::ReadBits`
  pub read_bits : ℕ → BitBuffer → ms.Stream → Result CodecError (Value × BitBuffer × ms.Stream)
  unfolding decode first_bytes
  read_bits width b s = do
    (b', s') ← first_bytes b s
    (bytes, b'', s'') ← decode ms width b' s'
    ok (record { bytes = bytes; width = width }, b'', s'')

  -- A message of several values, as its `Serialize` writes and reads it.
  pub write_values : List Value → BitBuffer → ms.Stream → Result CodecError (BitBuffer × ms.Stream)
  unfolding write_bits
  write_values [] b s = ok (b, s)
  write_values (v ∷ vs) b s = do (b', s') ← write_bits v b s; write_values vs b' s'

  pub read_values :
      List ℕ → BitBuffer → ms.Stream → Result CodecError (List Value × BitBuffer × ms.Stream)
  unfolding read_bits
  read_values [] b s = ok ([], b, s)
  read_values (width ∷ widths) b s = do
    (v, b', s') ← read_bits width b s
    (vs, b'', s'') ← read_values widths b' s'
    ok (v ∷ vs, b'', s'')

  -- A whole message: the constructor, the values, and the destructor's `Flush`.
  pub write_message : List Value → ms.Stream → Result CodecError ms.Stream
  unfolding write_values flush
  write_message vs s = do (b, s') ← write_values vs empty_buffer s; (b', s'') ← flush b s'; ok s''

  -- The constructor of a message that is read, which resets it, and the values.
  pub read_message : List ℕ → ms.Stream → Result CodecError (List Value × BitBuffer × ms.Stream)
  unfolding read_values reset
  read_message widths s = do (b, s') ← reset s; read_values widths b s'
