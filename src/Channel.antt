-- ===== src/Channel.antt =====
-- `Netchan` of mohpc-lib/Network/Remote/Channel.cpp, the receiving side. The stream that a packet is
-- received into is a new growing stream, and the fragments are collected in another; both are the list
-- of their bytes, a write behind the end lengthens them and a seek behind the end adds zeros, as
-- DynamicDataMessageStream does. The socket is not modelled: `receive` is given its packet.
pub mod Words
pub mod Sequence
pub mod Fragments
pub mod Messages
mod Tests
use mohpc.Base.{
  ℕ, ◌+◌, ◌-◌, ◌%◌, ◌*◌, List, [], ◌∷◌, ◌++◌, Bool, true, false, not, length, take, drop, slice,
  overwrite, replicate, ltb, leb, ◌==◌, if◌then◌else◌, Option, none, some, Result, ok, err, sub_u32,
  add_u32, u32_mod,
}
use mohpc.Channel.Words.{bytes_of, value_of}

-- FRAGMENT_SIZE and FRAGMENT_BIT
abbrev pub fragment_size : ℕ
fragment_size = 1300

abbrev pub fragment_bit : ℕ
fragment_bit = 2147483648

pub record Netchan : Type 0 where
  pub incoming_sequence : ℕ
  pub outgoing_sequence : ℕ
  pub dropped : ℕ
  pub fragment_sequence : ℕ
  pub fragments : List ℕ

-- The sequence number, and the stream where the reader goes on.
pub record Received : Type 0 where
  pub sequence : ℕ
  pub content : List ℕ
  pub position : ℕ

pub data ChannelError : Type 0 where
  bad_fragment_length : ℕ → ChannelError

-- The constructor
abbrev pub new_channel : Netchan
new_channel = record {
  incoming_sequence = 0;
  outgoing_sequence = 1;
  dropped = 0;
  fragment_sequence = 0;
  fragments = [];
}

-- A seek of a growing stream. The source leaves what it adds as `new` gave it; here it is zero.
unfoldable pub seek_to : ℕ → List ℕ → List ℕ
seek_to n bytes = bytes ++ replicate (n - length bytes) 0

-- `writePacketServerHeader`, at the start of the stream
unfoldable pub write_packet_server_header : ℕ → List ℕ → List ℕ
write_packet_server_header sequence stream = overwrite 0 (bytes_of 4 sequence) stream

-- What `receive` adds to the fragments: the stream grows first and is written then.
unfoldable pub append_fragment : List ℕ → List ℕ → List ℕ
unfolding seek_to
append_fragment bytes fragments =
    overwrite (length fragments) bytes (seek_to (length bytes) fragments)

-- The message that the fragments make, put over the last packet.
unfoldable pub assemble : ℕ → List ℕ → List ℕ → Received
unfolding seek_to write_packet_server_header
assemble sequence packet fragments =
    let stream = write_packet_server_header sequence (seek_to (length fragments) packet) in
    record { sequence = sequence; content = overwrite 4 fragments stream; position = 4 }

-- `receive` of a fragment
unfoldable pub receive_fragment :
    ℕ → List ℕ → Netchan → Result ChannelError (Option Received) × Netchan
unfolding append_fragment assemble
receive_fragment sequence packet chan =
    let start = value_of 4 (drop 4 packet) in
    let len = value_of 2 (drop 8 packet) in
    let c =
      if sequence == chan.fragment_sequence
      then chan
      else record chan { fragment_sequence = sequence % 65536; fragments = [] } in
    if not (start == length c.fragments)
    then (ok none, c)
    else if ltb (length packet) (10 + len)
    then (err (bad_fragment_length len), c)
    else let fragments = append_fragment (slice 10 len packet) c.fragments in
      if len == fragment_size then (ok none, record c { fragments = fragments }) else (
        ok (some (assemble sequence packet fragments)),
        record c { fragments = []; incoming_sequence = sequence % 65536 },
      )

-- `receive`: none if the code returns false. `packet` is none if the socket gave nothing, or of
-- another sender than the expected one.
unfoldable pub receive : Option (List ℕ) → Netchan → Result ChannelError (Option Received) × Netchan
unfolding receive_fragment seek_to
receive none chan = (ok none, chan)
receive (some packet) chan =
    let number = value_of 4 packet in
    if number == u32_mod - 1
    then (ok (some (record { sequence = number; content = packet; position = 4 })), chan)
    else let sequence = number % fragment_bit in
      if ltb sequence chan.incoming_sequence
      then (ok none, chan)
      else let c = record chan {
        dropped = sub_u32 sequence (chan.incoming_sequence + 1) % 65536;
      } in
        if leb fragment_bit number then receive_fragment sequence packet c else (
          ok (some (record { sequence = sequence; content = seek_to 4 packet; position = 4 })),
          record c { incoming_sequence = sequence % 65536 },
        )
