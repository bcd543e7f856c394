-- ===== src/Transmit/Tests.antt =====
-- A short message over a stream of fixed size, and longer ones of several fragments.
use mohpc.Base.{
  ℕ, ◌%◌, ◌<◌, ◌≡◌, refl, arith, List, [], ◌∷◌, length, length-replicate, replicate, take, drop,
  map, some, Result, ok, err,
}
use mohpc.Stream.{StreamError, overflow, reading}
use mohpc.Stream.Fixed
use mohpc.Stream.Fixed.{FixedStream}
use mohpc.Stream.Fixed.Laws.{fixed_stream}
use mohpc.Channel.{Netchan, new_channel, receive}
use mohpc.Transmit.{transmit}
use mohpc.Transmit.Arrival.{packet, sent, transmit-receive}

-- The bytes of memory that was not written.
abbrev junk : ℕ → List ℕ
junk n = replicate n 170

abbrev length-junk : (n : ℕ) → length (junk n) ≡ n
length-junk n = length-replicate n 170

abbrev message : FixedStream
message = record { storage = 1 ∷ 2 ∷ 3 ∷ []; len = 3; max_length = 3; cur_pos = 0 }

message-IsValid : Fixed.IsValid message
message-IsValid = omega arith

message_short : fixed_stream.get_length message < 1300
unfolding Fixed.get_length
message_short = omega arith

transmit-receive_example :
    (s' : FixedStream) × (transmit junk length-junk fixed_stream 4 77 new_channel message
      ≡ ok (
        packet junk length-junk fixed_stream 77 new_channel message ∷ [],
        s',
        sent junk length-junk fixed_stream new_channel,
      ))
    × (Fixed.content s' ≡ Fixed.content message)
    × ((receive (some (packet junk length-junk fixed_stream 77 new_channel message)) new_channel).0
        ≡ ok (
            some (record {
              sequence = 1;
              content = packet junk length-junk fixed_stream 77 new_channel message;
              position = 4;
            })))
    × ((receive
          (some (packet junk length-junk fixed_stream 77 new_channel message))
          new_channel).1.incoming_sequence
        ≡ 1 % 65536)
transmit-receive_example =
    transmit-receive junk length-junk fixed_stream 4 77 new_channel new_channel message
      message-IsValid message_short (omega arith) (omega arith)

-- The message as it went out: its number, the port and the bytes.
abbrev packets_of : Result StreamError (List (List ℕ) × FixedStream × Netchan) → List (List ℕ)
packets_of (ok (packets, s, chan)) = packets
packets_of (err e) = []

small_packet :
    packets_of (transmit junk length-junk fixed_stream 4 77 new_channel message)
    ≡ (1 ∷ 0 ∷ 0 ∷ 0 ∷ 77 ∷ 0 ∷ 1 ∷ 2 ∷ 3 ∷ []) ∷ []
unfolding transmit mohpc.Channel.Words.bytes_of Fixed.read Fixed.seek Fixed.get_length
    Fixed.get_position
small_packet = refl

abbrev nines : ℕ → FixedStream
nines n = record { storage = replicate n 9; len = n; max_length = n; cur_pos = 0 }

-- A message of two fragments and an empty one: the second carries memory that was never written.
two_fragments :
    map
      (λ p. take 2 (drop 12 p))
      (packets_of (transmit junk length-junk fixed_stream 4 77 new_channel (nines 2600)))
    ≡ (9 ∷ 9 ∷ []) ∷ (170 ∷ 170 ∷ []) ∷ [] ∷ []
unfolding transmit mohpc.Channel.Words.bytes_of Fixed.read Fixed.seek Fixed.get_length
    Fixed.get_position
two_fragments = refl

-- A message of one fragment and some more is not sent to its end.
one_and_more :
    transmit junk length-junk fixed_stream 4 77 new_channel (nines 1301) ≡ err (overflow reading)
unfolding transmit mohpc.Channel.Words.bytes_of Fixed.read Fixed.seek Fixed.get_length
    Fixed.get_position
one_and_more = refl
