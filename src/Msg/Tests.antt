-- ===== src/Msg/Tests.antt =====
-- A message of three values, and one that is not read back.
use mohpc.Base.{
  ℕ, ◌+◌, ◌-◌, ◌/◌, ◌<◌, ◌≡◌, refl, arith, List, [], ◌∷◌, ◌++◌, length, get_or, replicate, ok, err,
  size_mod,
}
use mohpc.Codec
use mohpc.Codec.{encode, CodecError, stream_error}
use mohpc.Codec.RoundTrip.{IsValue}
use mohpc.Codec.Rows.{row_bits, encode-Wrote}
use mohpc.Codec.Writer.{HasRoom, Wrote}
use mohpc.Huffman.{BitBuffer, node_at}
use mohpc.Huffman.Table.{compression_huff}
use mohpc.Huffman.Codes.{bits_of}
use mohpc.Msg.{Value, empty_buffer, write_message, read_message}
use mohpc.Msg.RoundTrip.{start_Wrote, read_message-write_message}
use mohpc.Msg.Values.{message_bits, AreValues}
use mohpc.Stream.{begin, overflow, reading}
use mohpc.Stream.Fixed
use mohpc.Stream.Fixed.{FixedStream}
use mohpc.Stream.Fixed.Laws.{fixed_stream}

-- 5 in three bits, 44 in eight and 301 in nine.
abbrev three : List Value
three =
    record { bytes = 5 ∷ []; width = 3 }
    ∷ record { bytes = 44 ∷ []; width = 8 }
    ∷ record { bytes = 45 ∷ 1 ∷ []; width = 9 }
    ∷ []

abbrev empty : ℕ → FixedStream
empty n = record { storage = replicate n 0; len = 0; max_length = n; cur_pos = 0 }

three_bits :
    message_bits three
    ≡ 1 ∷ 0 ∷ 1 ∷ 1 ∷ 0 ∷ 0 ∷ 0 ∷ 1 ∷ 1 ∷ 1 ∷ 0 ∷ 0 ∷ 1 ∷ 1 ∷ 1 ∷ 1 ∷ 0 ∷ 1 ∷ 0 ∷ 1 ∷ 1 ∷ 0 ∷ 0 ∷ 0
      ∷ []
unfolding message_bits row_bits bits_of node_at compression_huff
three_bits = refl

three-AreValues : AreValues three
unfolding AreValues
three-AreValues =
    let five : IsValue (5 ∷ []) 3 = record {
      bytes = (omega arith, tt);
      size = omega arith;
      top = omega arith;
    } in
    let second : IsValue (44 ∷ []) 8 = record {
      bytes = (omega arith, tt);
      size = omega arith;
      top = omega arith;
    } in
    let third : IsValue (45 ∷ 1 ∷ []) 9 = record {
      bytes = (omega arith, (omega arith, tt));
      size = omega arith;
      top = omega arith;
    } in
    (five, (second, (third, tt)))

empty-HasRoom : HasRoom fixed_stream ((length (message_bits three) + 7) / 8) (empty 64)
unfolding HasRoom
empty-HasRoom m h =
    let few : length (message_bits three) ≡ 24 = rw three_bits refl in omega (arith, few, h)

bounds :
    ((length (message_bits three) + 7) / 8 < size_mod)
    × ((length (message_bits three) - 1) / 8 ≡ 17 / 8)
    × (17 < length (message_bits three))
    × (get_or (message_bits three) 17 0 ≡ 1)
bounds = rw three_bits (omega arith, refl, omega arith, refl)

read_message-write_message_example :
    (t : FixedStream) × (write_message fixed_stream three (empty 64) ≡ ok t)
    × (b : BitBuffer) × (s' : FixedStream) × (read_message fixed_stream
          (3 ∷ 8 ∷ 9 ∷ [])
          (Fixed.seek 0 begin t)
        ≡ ok (three, b, s'))
unfolding Fixed.get_position
read_message-write_message_example =
    read_message-write_message fixed_stream three (empty 64) 17 three-AreValues (omega arith) refl
      refl empty-HasRoom bounds.0 bounds.1 bounds.2 bounds.3

-- 301 in nine bits at the start of a message.
nine_bits : row_bits (45 ∷ 1 ∷ []) 9 ≡ 1 ∷ 1 ∷ 1 ∷ 0 ∷ 1 ∷ 0 ∷ 1 ∷ 1 ∷ 0 ∷ 0 ∷ 0 ∷ []
unfolding row_bits bits_of node_at compression_huff
nine_bits = refl

nine-HasRoom : HasRoom fixed_stream ((length (row_bits (45 ∷ 1 ∷ []) 9) + 7) / 8) (empty 64)
unfolding HasRoom
nine-HasRoom m h =
    let few : length (row_bits (45 ∷ 1 ∷ []) 9) ≡ 11 = rw nine_bits refl in omega (arith, few, h)

at_front : fixed_stream.get_position (empty 64) ≡ 0
unfolding Fixed.get_position
at_front = refl

encode-Wrote_example :
    (b : BitBuffer) × (s : FixedStream) × (encode fixed_stream
        (45 ∷ 1 ∷ [])
        9
        empty_buffer
        (empty 64)
      ≡ ok (b, s))
    × Wrote fixed_stream 136 ([] ++ row_bits (45 ∷ 1 ∷ []) 9) 7 b s
encode-Wrote_example =
    encode-Wrote fixed_stream (45 ∷ 1 ∷ []) 9 [] 7 empty_buffer (empty 64)
      (omega arith, (omega arith, tt))
      (start_Wrote fixed_stream (length (row_bits (45 ∷ 1 ∷ []) 9)) (empty 64) (omega arith) refl
        at_front nine-HasRoom)

-- Twenty bytes 208 are 180 zero bits. In front of the last four the stream is at its end and the
-- buffer holds only zeros, which `ReadBits` takes for the end of the message.
abbrev at_end : FixedStream
at_end = record { storage = replicate 23 0; len = 23; max_length = 23; cur_pos = 23 }

zeros_refused :
    Codec.read_bits fixed_stream (record { bytes = replicate 32 0; bit = 144 }) at_end
    ≡ err (stream_error (overflow reading))
unfolding Codec.read_bits Fixed.get_length Fixed.get_position
zeros_refused = refl
