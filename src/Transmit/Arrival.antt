-- ===== src/Transmit/Arrival.antt =====
-- A message is sent by one channel and received by another.
use mohpc.Base.{
  ℕ, ◌%◌, ◌≤◌, ◌<◌, ◌≡◌, sym, ap, subst, arith, List, [], ◌∷◌, ◌++◌, append_assoc, length, false,
  leb, some, Result, ok, ◌>>=◌, add_u32,
}
use mohpc.Stream.{StreamError}
use mohpc.Stream.Interface.{MessageStream}
use mohpc.Channel.{Netchan, fragment_size, fragment_bit, receive}
use mohpc.Channel.Sequence.{receive_whole}
use mohpc.Channel.Words.{bytes_of}
use mohpc.Transmit.{packet_header, transmit_whole, transmit}
use mohpc.Transmit.Whole.{transmit_whole_lem}

module _ (uninit : ℕ → List ℕ) (length-uninit : (n : ℕ) → length (uninit n) ≡ n)
    (ins : MessageStream) where
  abbrev pub packet : ℕ → Netchan → ins.Stream → List ℕ
  packet qport chan s = packet_header qport false chan ++ ins.content s

  abbrev pub sent : Netchan → Netchan
  sent chan = record chan { outgoing_sequence = add_u32 chan.outgoing_sequence 1 }

  transmit-small :
      (rounds qport : ℕ) (chan : Netchan) (s s' : ins.Stream) (p : List ℕ)
      → ins.get_length s < fragment_size
      → transmit_whole uninit length-uninit ins qport chan s ≡ ok (p, s', sent chan)
      → transmit uninit length-uninit ins rounds qport chan s ≡ ok (p ∷ [], s', sent chan)
  unfolding transmit
  transmit-small rounds qport chan s s' p short ran =
      let small : leb fragment_size (ins.get_length s) ≡ false = ground (arith, short) in
      let one : List ℕ × ins.Stream × Netchan
          → Result StreamError (List (List ℕ) × ins.Stream × Netchan) =
        λ x. ok (x.0 ∷ [], x.1, x.2) in
      rw small (ap (λ r. r >>= one) ran)

  -- A message of a valid stream below FRAGMENT_SIZE is sent, from wherever the stream stands, as
  -- one packet: the number, the port and all its bytes in order, with the stream's content as
  -- before and the next number one more. A channel whose last number is not above that of the
  -- packet, which is below 2^31, passes just the packet on, behind its number, and keeps the
  -- number, cut to 16 bits.
  pub transmit-receive :
      (rounds qport : ℕ) (chan other : Netchan) (s : ins.Stream)
      → ins.IsValid s
      → ins.get_length s < fragment_size
      → chan.outgoing_sequence < fragment_bit
      → other.incoming_sequence ≤ chan.outgoing_sequence
      → (s' : ins.Stream) × (transmit uninit length-uninit ins rounds qport chan s
          ≡ ok (packet qport chan s ∷ [], s', sent chan))
        × (ins.content s' ≡ ins.content s)
        × ((receive (some (packet qport chan s)) other).0
            ≡ ok (
                some (record {
                  sequence = chan.outgoing_sequence;
                  content = packet qport chan s;
                  position = 4;
                })))
        × ((receive (some (packet qport chan s)) other).1.incoming_sequence
            ≡ chan.outgoing_sequence % 65536)
  transmit-receive rounds qport chan other s v short number newer =
      let (s', ran, valid', same) =
        transmit_whole_lem uninit length-uninit ins qport chan s v short in
      let payload = bytes_of 2 qport ++ ins.content s in
      let split : packet qport chan s ≡ bytes_of 4 chan.outgoing_sequence ++ payload =
        append_assoc (bytes_of 4 chan.outgoing_sequence) (bytes_of 2 qport) (ins.content s) in
      let come = receive_whole chan.outgoing_sequence payload other newer number in
      (
        s',
        transmit-small rounds qport chan s s' (packet qport chan s) short ran,
        same,
        subst
            (λ (b : List ℕ).
              (receive (some b) other).0
              ≡ ok (some (record { sequence = chan.outgoing_sequence; content = b; position = 4 })))
            (sym split) (ap (λ x. x.0) come),
        subst
            (λ (b : List ℕ).
              (receive (some b) other).1.incoming_sequence ≡ chan.outgoing_sequence % 65536)
            (sym split) (ap (λ x. x.1.incoming_sequence) come),
      )
