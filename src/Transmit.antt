-- ===== src/Transmit.antt =====
-- `Netchan` of mohpc-lib/Network/Remote/Channel.cpp, the sending side. A message is any stream that keeps
-- the promises of the interface; a packet is written to a growing stream and sent as its bytes. The
-- client's port is given with each call, since only the constructor sets it. Words are written with the
-- byte codec, at the place where the stream stands.
pub mod Prepared
pub mod Whole
pub mod Arrival
mod Tests
use mohpc.Base.{
  ℕ, zero, suc, ◌+◌, ◌-◌, ◌%◌, ◌≡◌, bit_or, List, [], ◌∷◌, ◌++◌, length, Bool, true, false, not,
  ltb, leb, ◌==◌, ◌&&◌, if◌then◌else◌, Option, none, some, Result, ok, err, ◌>>=◌, add_u32, sub_u32,
}
use mohpc.Stream.{StreamError, begin, current}
use mohpc.Stream.Interface.{MessageStream}
use mohpc.Stream.Dynamic.{
  DynamicStream, empty_stream, content, reserve, write, seek, get_length, get_position,
}
use mohpc.Stream.Dynamic.Laws.{dynamic_stream}
use mohpc.Stream.Copy.{copy}
use mohpc.Channel.{Netchan, fragment_size, fragment_bit}
use mohpc.Channel.Words.{bytes_of}

-- MAX_PACKETLEN
abbrev pub max_packetlen : ℕ
max_packetlen = 1400

-- `writePacketHeader`: the sequence number and the fragment bit, and the client's port
abbrev pub packet_header : ℕ → Bool → Netchan → List ℕ
packet_header qport fragmented chan =
    bytes_of 4
      (if fragmented then bit_or chan.outgoing_sequence fragment_bit else chan.outgoing_sequence)
    ++ bytes_of 2 qport

-- `writePacketFragment`
abbrev pub fragment_header : ℕ → ℕ → ℕ → Netchan → List ℕ
fragment_header qport start len chan =
    packet_header qport true chan ++ (bytes_of 4 start ++ bytes_of 2 len)

-- `unsentFragmentStart` and `unsentFragments`
pub record Unsent : Type 0 where
  pub fragment_start : ℕ
  pub is_unsent : Bool

module _ (uninit : ℕ → List ℕ) (length-uninit : (n : ℕ) → length (uninit n) ≡ n)
    (ins : MessageStream) where
  -- `transmit` of a message below FRAGMENT_SIZE: the packet, and what is left
  unfoldable pub transmit_whole :
      ℕ → Netchan → ins.Stream → Result StreamError (List ℕ × ins.Stream × Netchan)
  unfolding reserve write seek get_length copy
  transmit_whole qport chan message = do
    let buf_len = ins.get_length message
    headed ←
        write uninit (packet_header qport false chan) (reserve uninit (buf_len + 6) empty_stream)
    let wide = seek uninit buf_len current headed
    let out = seek uninit (get_length headed) begin wide
    (packet, message') ←
        copy (dynamic_stream uninit length-uninit) ins max_packetlen buf_len out
          (ins.seek 0 begin message)
    ok (
      content packet,
      message',
      record chan { outgoing_sequence = add_u32 chan.outgoing_sequence 1 },
    )

  -- `transmitNextFragment`: the packet, and what is left
  unfoldable pub transmit_next_fragment :
      ℕ
      → ℕ
      → Netchan
      → Unsent
      → ins.Stream
      → Result StreamError (List ℕ × ins.Stream × Netchan × Unsent)
  unfolding reserve write seek get_position copy
  transmit_next_fragment qport unsent_length chan u message =
      let len =
        if ltb unsent_length (add_u32 u.fragment_start fragment_size)
        then sub_u32 unsent_length u.fragment_start % 65536
        else fragment_size in
      let start = add_u32 u.fragment_start len in
      let is_last = (start == unsent_length) && not (len == fragment_size) in
      let sent = record chan { outgoing_sequence = add_u32 chan.outgoing_sequence 1 } in
      do
        headed ←
            write uninit (fragment_header qport u.fragment_start unsent_length chan)
              (reserve uninit (8 + len) empty_stream)
        let out = seek uninit (get_position headed) begin (seek uninit len current headed)
        (packet, message') ←
            copy (dynamic_stream uninit length-uninit) ins fragment_size len out message
        ok (
          content packet,
          message',
          (if is_last then sent else chan),
          (record { fragment_start = start; is_unsent = not is_last }),
        )

  -- The loop of `transmit`, for as many fragments as are given rounds
  unfoldable pub transmit_fragments :
      ℕ
      → ℕ
      → ℕ
      → Netchan
      → Unsent
      → ins.Stream
      → Result StreamError (List (List ℕ) × ins.Stream × Netchan)
  unfolding transmit_next_fragment
  transmit_fragments zero qport unsent_length chan u message = ok ([], message, chan)
  transmit_fragments (suc rounds) qport unsent_length chan u message = do
    (packet, message', chan', u') ← transmit_next_fragment qport unsent_length chan u message
    if not u'.is_unsent then ok (packet ∷ [], message', chan') else (do
      (packets, rest, last) ← transmit_fragments rounds qport unsent_length chan' u' message'
      ok (packet ∷ packets, rest, last))

  -- `transmit`: the packets that are sent
  unfoldable pub transmit :
      ℕ → ℕ → Netchan → ins.Stream → Result StreamError (List (List ℕ) × ins.Stream × Netchan)
  unfolding transmit_whole transmit_fragments
  transmit rounds qport chan message =
      let first : Unsent = record { fragment_start = 0; is_unsent = true } in
      let fragments =
        transmit_fragments rounds qport (ins.get_length message % 65536) chan first message in
      let whole = do
        (packet, message', chan') ← transmit_whole qport chan message
        ok (packet ∷ [], message', chan')
      in if leb fragment_size (ins.get_length message) then fragments else whole
