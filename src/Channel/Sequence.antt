-- ===== src/Channel/Sequence.antt =====
-- What `receive` does with the sequence numbers.
use mohpc.Base.{
  ℕ, ◌+◌, ◌-◌, ◌%◌, ◌≡◌, ◌≤◌, ◌<◌, ◌⊎◌, refl, ap, ◌∙◌, drop, replicate, arith, List, [], ◌++◌,
  Option, none, some, ok, err, u32_mod, sub_u32, length, append-nil,
}
use mohpc.Channel.{
  Netchan, seek_to, Received, bad_fragment_length, fragment_bit, receive, receive_fragment,
  assemble,
}
use mohpc.Channel.Words.{bytes_of, value_of, value_of-bytes_of_four}

-- A packet that is passed on either has no number, and the channel stays as it was; or its number is
-- not below the last one and becomes the last one, cut to 16 bits.
pub receive-rises :
    (packet : Option (List ℕ)) (chan : Netchan) (r : Received)
    → (receive packet chan).0 ≡ ok (some r)
    → ((r.sequence ≡ u32_mod - 1) × ((receive packet chan).1 ≡ chan))
      ⊎ ((chan.incoming_sequence ≤ r.sequence)
          × ((receive packet chan).1.incoming_sequence ≡ r.sequence % 65536))
unfolding receive receive_fragment assemble
receive-rises none chan r h = ground arith
receive-rises (some packet) chan r h = ground arith

-- A packet that is not passed on, for whatever reason, leaves the last number as it was.
pub receive-waits :
    (packet : Option (List ℕ)) (chan : Netchan)
    → ((receive packet chan).0 ≡ ok none)
      ⊎ ((n : ℕ) × ((receive packet chan).0 ≡ err (bad_fragment_length n)))
    → (receive packet chan).1.incoming_sequence ≡ chan.incoming_sequence
unfolding receive receive_fragment
receive-waits none chan h = refl
receive-waits (some packet) chan h = ground arith

pub seek_to-inside : (n : ℕ) (bytes : List ℕ) → n ≤ length bytes → seek_to n bytes ≡ bytes
unfolding seek_to
seek_to-inside n bytes h =
    let missing : n - length bytes ≡ 0 = omega arith in
    ap (λ (k : ℕ). bytes ++ replicate k 0) missing ∙ append-nil bytes

seek_to-number : (n : ℕ) (rest : List ℕ) → seek_to 4 (bytes_of 4 n ++ rest) ≡ bytes_of 4 n ++ rest
unfolding bytes_of
seek_to-number n rest = seek_to-inside 4 (bytes_of 4 n ++ rest) (omega arith)

pub receive_whole :
    (n : ℕ) (payload : List ℕ) (chan : Netchan)
    → chan.incoming_sequence ≤ n
    → n < fragment_bit
    → receive (some (bytes_of 4 n ++ payload)) chan ≡ (
      ok (some (record { sequence = n; content = bytes_of 4 n ++ payload; position = 4 })),
      record chan {
        incoming_sequence = n % 65536;
        dropped = sub_u32 n (chan.incoming_sequence + 1) % 65536;
      },
    )
unfolding receive
receive_whole n payload chan h b =
    rw (value_of-bytes_of_four n payload (omega arith), seek_to-number n payload) (ground arith)

-- The last number is kept in 16 bits. After a whole packet whose number n is 65536 or more and not
-- below the last one, an older whole packet is passed on, if its number is not below what is left
-- of n.
pub receive-replays :
    (n k : ℕ) (payload old : List ℕ) (chan : Netchan)
    → chan.incoming_sequence ≤ n
    → 65536 ≤ n
    → n < fragment_bit
    → n % 65536 ≤ k
    → k < n
    → (receive (some (bytes_of 4 k ++ old)) (receive (some (bytes_of 4 n ++ payload)) chan).1).0
      ≡ ok (some (record { sequence = k; content = bytes_of 4 k ++ old; position = 4 }))
receive-replays n k payload old chan h big small low older =
    rw (receive_whole n payload chan h small)
      (ap (λ x. x.0) (receive_whole k old _ low (omega arith)))

-- The number of a fragment is compared with a number of 16 bits. From 65536 on, whatever the channel
-- holds, a fragment that does not start the message is dropped, and so is all that came before it.
pub receive-high_fragment :
    (packet : List ℕ) (chan : Netchan)
    → fragment_bit ≤ value_of 4 packet
    → value_of 4 packet < u32_mod - 1
    → 65536 ≤ value_of 4 packet % fragment_bit
    → chan.incoming_sequence < 65536
    → chan.fragment_sequence < 65536
    → 0 < value_of 4 (drop 4 packet)
    → ((receive (some packet) chan).0 ≡ ok none) × ((receive (some packet) chan).1.fragments ≡ [])
unfolding receive receive_fragment
receive-high_fragment packet chan marked number high last old inside = (ground arith, ground arith)
