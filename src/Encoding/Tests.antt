-- ===== src/Encoding/Tests.antt =====
-- The encoding of a concrete message, and the theorems at it.
use mohpc.Base.{◌-◌, ◌≡◌, refl, arith, [], ◌∷◌, slice, overwrite, ok}
use mohpc.Reliable.{Slots}
use mohpc.Stream.Fixed.{FixedStream, get_length, get_position, content, IsValid}
use mohpc.Stream.Fixed.Laws.{fixed_stream}
use mohpc.Encoding.{XorEncoding, key_string, start_key, convert, convert_in_place}
use mohpc.Encoding.Pass.{xor_pass}
use mohpc.Encoding.RoundTrip.{convert_in_place_lem, convert-convert}
use mohpc.Encoding.Through.{convert-convert_in_place}

-- The commands "cs" and "%", and a message that stands at its second byte.
abbrev commands : Slots
commands = record { slots = (99 ∷ 115 ∷ []) ∷ (37 ∷ []) ∷ []; command_size = 8 }

abbrev encoding : XorEncoding
encoding = record {
  challenge = 0x1234;
  remote_commands = commands;
  secret_key = 7;
  message_acknowledge = 300;
  reliable_acknowledge = 2;
}

abbrev message : FixedStream
message = record { storage = 10 ∷ 20 ∷ 30 ∷ 255 ∷ 0 ∷ []; len = 5; max_length = 5; cur_pos = 1 }

abbrev blank : FixedStream
blank = record { storage = 0 ∷ 0 ∷ 0 ∷ 0 ∷ []; len = 0; max_length = 4; cur_pos = 0 }

message-IsValid : IsValid message
message-IsValid = omega arith

convert_in_place_lem_example :
    (t : FixedStream) × (convert_in_place fixed_stream encoding message ≡ ok t)
    × IsValid t
    × (get_position t ≡ get_position message)
    × (get_length t ≡ get_length message)
    × (content t
        ≡ overwrite
            (get_position message)
            (xor_pass (key_string encoding) (start_key encoding) (get_position message) 0 (
              slice
                (get_position message)
                (get_length message - get_position message)
                (content message)))
            (content message))
convert_in_place_lem_example = convert_in_place_lem fixed_stream encoding message message-IsValid

convert-convert_example :
    (t : FixedStream) × (u : FixedStream) × (convert_in_place fixed_stream encoding message ≡ ok t)
    × (convert_in_place fixed_stream encoding t ≡ ok u)
    × IsValid u
    × (content u ≡ content message)
    × (get_position u ≡ get_position message)
convert-convert_example =
    convert-convert fixed_stream encoding encoding message message-IsValid (omega arith) refl refl

convert-convert_in_place_example :
    (out' : FixedStream) × (s' : FixedStream) × (t : FixedStream) × (convert fixed_stream
        fixed_stream encoding blank message
      ≡ ok (out', s'))
    × (convert_in_place fixed_stream encoding message ≡ ok t)
    × (get_position out' ≡ 0)
    × (content out'
        ≡ overwrite
            (get_position blank)
            (slice (get_position message) (get_length message - get_position message) (content t))
            (content blank))
    × (content s' ≡ content message)
convert-convert_in_place_example =
    convert-convert_in_place fixed_stream fixed_stream encoding blank message (omega arith)
      message-IsValid (unfold get_length get_position in omega arith)
