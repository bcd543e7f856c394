-- ===== src/Channel/Tests.antt =====
-- The channel at concrete packets.
use mohpc.Base.{
  ℕ, ◌-◌, ◌%◌, ◌≡◌, ◌≤◌, ◌⊎◌, inr, refl, arith, List, [], ◌∷◌, ◌++◌, some, ok, err, u32_mod, length,
  length-append, length-replicate, replicate,
}
use mohpc.Channel.{Received, bad_fragment_length, new_channel, receive, receive_fragment}
use mohpc.Channel.Words.{bytes_of, value_of}
use mohpc.Channel.Sequence.{receive-rises, receive-replays}
use mohpc.Channel.Fragments.{packet_of}
use mohpc.Channel.Messages.{feed, flatten, receive-message}

-- The number 5 and two bytes.
abbrev whole : List ℕ
whole = 5 ∷ 0 ∷ 0 ∷ 0 ∷ 77 ∷ 78 ∷ []

abbrev whole_received : Received
whole_received = record { sequence = 5; content = whole; position = 4 }

whole_passes : (receive (some whole) new_channel).0 ≡ ok (some whole_received)
unfolding receive value_of
whole_passes = refl

receive-rises_example :
    ((5 ≡ u32_mod - 1) × ((receive (some whole) new_channel).1 ≡ new_channel))
    ⊎ ((new_channel.incoming_sequence ≤ 5)
        × ((receive (some whole) new_channel).1.incoming_sequence ≡ 5 % 65536))
receive-rises_example = receive-rises (some whole) new_channel whole_received whole_passes

-- The first fragment of message 5 claims 9 bytes and has none.
abbrev bad_fragment : List ℕ
bad_fragment = 5 ∷ 0 ∷ 0 ∷ 128 ∷ 0 ∷ 0 ∷ 0 ∷ 0 ∷ 9 ∷ 0 ∷ []

bad_fragment_throws : (receive (some bad_fragment) new_channel).0 ≡ err (bad_fragment_length 9)
unfolding receive receive_fragment value_of
bad_fragment_throws = refl

receive-replays_example :
    (receive (some (bytes_of 4 9 ++ [])) (receive (some (bytes_of 4 65540 ++ [])) new_channel).1).0
    ≡ ok (some (record { sequence = 9; content = bytes_of 4 9 ++ []; position = 4 }))
receive-replays_example =
    receive-replays 65540 9 [] [] new_channel (omega arith) (omega arith) (omega arith)
      (omega arith) (omega arith)

-- Message 65540, from byte 1300 on
abbrev high : List ℕ
high = 4 ∷ 0 ∷ 1 ∷ 128 ∷ 20 ∷ 5 ∷ 0 ∷ 0 ∷ 0 ∷ 0 ∷ []

abbrev sevens : List ℕ
sevens = replicate 1300 7

receive-message_example :
    ((receive
        (some (packet_of 3 (length (flatten (sevens ∷ []))) (8 ∷ [])))
        (feed 3 0 (sevens ∷ []) new_channel)).0
      ≡ ok (
          some (record {
            sequence = 3;
            content = bytes_of 4 3 ++ (flatten (sevens ∷ []) ++ 8 ∷ []);
            position = 4;
          })))
    × ((receive
          (some (packet_of 3 (length (flatten (sevens ∷ []))) (8 ∷ [])))
          (feed 3 0 (sevens ∷ []) new_channel)).1.incoming_sequence
        ≡ 3)
    × ((receive
          (some (packet_of 3 (length (flatten (sevens ∷ []))) (8 ∷ [])))
          (feed 3 0 (sevens ∷ []) new_channel)).1.fragments
        ≡ [])
receive-message_example =
    receive-message 3 sevens [] (8 ∷ []) new_channel (omega arith) (omega arith) (inr refl)
      (length-replicate {A = ℕ} 1300 7, tt) (omega arith)
      (omega (arith, length-append sevens [], length-replicate {A = ℕ} 1300 7))
