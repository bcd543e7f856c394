-- ===== src/Reliable.antt =====
-- Reliable command sequences: include/MOHPC/Network/Types/ReliableTemplate.h and
-- mohpc-lib/Network/Types/Reliable.cpp. A command is the list of its characters, without the NUL
-- that ends it in C.
pub mod Window
mod Tests
use mohpc.Base.{
  ℕ, ◌+◌, ◌-◌, ◌%◌, ◌<◌, ◌≡◌, List, [], Bool, length, get_or, set, take, min, ltb, leb,
  if◌then◌else◌, add_u32,
}

-- `SequenceTemplate` and `RemoteCommandSequenceTemplate`: `slots` has MAX_RELIABLE_COMMANDS rows of
-- RELIABLE_COMMAND_SIZE characters.
pub record Slots : Type 0 where
  pub slots : List (List ℕ)
  pub command_size : ℕ

-- `getMaxElements`
abbrev pub max_elements : Slots → ℕ
max_elements s = length s.slots

-- What a row of the template holds of a command.
abbrev pub truncate : Slots → List ℕ → List ℕ
truncate s command = take (min (length command) (s.command_size - 1)) command

-- `set`
pub set_slot : ℕ → List ℕ → Slots → Slots
set_slot index command s = record s { slots = set s.slots index (truncate s command) }

-- `get`
unfoldable pub get_slot : Slots → ℕ → List ℕ
get_slot s index = get_or s.slots index []

-- `IReliableSequence`: the commands that the client sends, and how far the server has them.
pub record ReliableSequence : Type 0 where
  pub store : Slots
  pub reliable_sequence : ℕ
  pub reliable_acknowledge : ℕ

-- `IReliableSequence::addCommand`. The sum is taken in `size_t`, where it cannot wrap.
pub add_command : List ℕ → ReliableSequence → ReliableSequence
unfolding set_slot
add_command command r =
    if ltb (r.reliable_acknowledge + max_elements r.store) r.reliable_sequence
    then r
    else let sequence = add_u32 r.reliable_sequence 1 in
      record r {
        reliable_sequence = sequence;
        store = set_slot (sequence % max_elements r.store) command r.store;
      }

-- `IReliableSequence::getSequence`
pub get_sequence : ReliableSequence → ℕ → List ℕ
unfolding get_slot
get_sequence r index = get_slot r.store (index % max_elements r.store)

-- `getLastSequence` and `getLastAcknowledgedSequence`
pub get_last_sequence : ReliableSequence → List ℕ
unfolding get_sequence
get_last_sequence r = get_sequence r r.reliable_sequence

pub get_last_acknowledged_sequence : ReliableSequence → List ℕ
unfolding get_sequence
get_last_acknowledged_sequence r = get_sequence r r.reliable_acknowledge

-- `IReliableSequence::updateAcknowledge`
pub update_acknowledge : ℕ → ReliableSequence → ReliableSequence
update_acknowledge acknowledged r = record r {
  reliable_acknowledge =
      if ltb (acknowledged + max_elements r.store) r.reliable_sequence
      then r.reliable_sequence
      else acknowledged;
}

-- `ICommandSequence`: the commands that came from the server.
pub record CommandSequence : Type 0 where
  pub store : Slots
  pub remote_command_sequence : ℕ

-- `ICommandSequence::addCommand`
pub add_remote_command : List ℕ → ℕ → CommandSequence → CommandSequence
unfolding set_slot
add_remote_command command sequence c =
    if leb sequence c.remote_command_sequence then c else record c {
      remote_command_sequence = sequence;
      store = set_slot (sequence % max_elements c.store) command c.store;
    }

-- `ICommandSequence::getSequence`
pub get_remote_sequence : CommandSequence → ℕ → List ℕ
unfolding get_slot
get_remote_sequence c index = get_slot c.store (index % max_elements c.store)

-- `ICommandSequence::setSequence`
pub set_sequence : ℕ → CommandSequence → CommandSequence
set_sequence sequence c = record c { remote_command_sequence = sequence }
