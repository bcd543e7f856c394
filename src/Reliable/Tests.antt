-- ===== src/Reliable/Tests.antt =====
-- Concrete command sequences, and the theorems on them there.
use mohpc.Base.{◌+◌, ◌≤◌, ◌<◌, ◌≡◌, ◌⊎◌, refl, arith, List, [], ◌∷◌}
use mohpc.Reliable.{
  Slots, ReliableSequence, CommandSequence, truncate, add_command, get_sequence, add_remote_command,
  get_remote_sequence,
}
use mohpc.Reliable.Window.{
  Op, add, acknowledge, add_command-keeps, add_command-overwrites, add_remote_command_lem,
}

-- Three rows of four characters.
abbrev rows : Slots
rows = record { slots = (1 ∷ []) ∷ (2 ∷ []) ∷ (3 ∷ []) ∷ []; command_size = 4 }

-- Three commands sent, none acknowledged.
abbrev pending : ReliableSequence
pending = record { store = rows; reliable_sequence = 3; reliable_acknowledge = 0 }

abbrev received : CommandSequence
received = record { store = rows; remote_command_sequence = 7 }

cut_to_row : get_sequence (add_command (5 ∷ 6 ∷ 7 ∷ 8 ∷ 9 ∷ []) pending) 4 ≡ 5 ∷ 6 ∷ 7 ∷ []
unfolding add_command get_sequence
cut_to_row = refl

add_command-keeps_example :
    ((add_command (5 ∷ []) pending).reliable_sequence ≡ 3 + 1)
    × (get_sequence (add_command (5 ∷ []) pending) (3 + 1) ≡ truncate rows (5 ∷ []))
    × (get_sequence (add_command (5 ∷ []) pending) 2 ≡ get_sequence pending 2)
add_command-keeps_example =
    add_command-keeps pending (5 ∷ []) 2 (omega arith) (omega arith) (omega arith) (omega arith)
      (omega arith)

add_command-overwrites_example :
    get_sequence (add_command (5 ∷ []) pending) (0 + 1) ≡ truncate rows (5 ∷ [])
add_command-overwrites_example =
    add_command-overwrites pending (5 ∷ []) (omega arith) (omega arith) (omega arith)

abbrev script : List Op
script = add (5 ∷ []) ∷ acknowledge 2 ∷ add (6 ∷ []) ∷ []

add_remote_command_lem_example :
    let c' = add_remote_command (4 ∷ []) 8 received in
    ((8 ≤ 7) × (c' ≡ received))
    ⊎ ((7 < 8)
        × (c'.remote_command_sequence ≡ 8)
        × (get_remote_sequence c' 8 ≡ truncate rows (4 ∷ []))
        × (get_remote_sequence c' 7 ≡ get_remote_sequence received 7))
add_remote_command_lem_example =
    add_remote_command_lem (4 ∷ []) 8 7 received (omega arith) (omega arith) (omega arith)
