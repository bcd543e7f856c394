-- ===== src/Entities.antt =====
-- The entities of a snapshot: `readOldSnapshot`, `parsePacketEntities` and `parseDeltaEntity` of
-- mohpc-lib/Network/Parsing/Snapshot.cpp. Entities are kept in one ring of MAX_PARSE_ENTITIES for all
-- snapshots; the old snapshot is read from it while the new one is written to it. The reads of a
-- message go through `EntityParser`, which is the source's IEntity and the baselines of its game state.
pub mod Reference
pub mod Ring
pub mod Merge
pub mod Refine
pub mod Old
mod Tests
use mohpc.Base.{
  ℕ, zero, suc, ◌+◌, ◌-◌, ◌%◌, ◌≡◌, List, [], ◌∷◌, ◌++◌, Bool, true, false, not, ltb, leb, ◌==◌,
  ◌||◌, if◌then◌else◌, Option, none, some, add_u32, sub_u32, u32_mod, Result, ok, err, ◌>>=◌,
}
use mohpc.Snapshot.{RawSnapshot, packet_backup, max_parse_entities}

-- An exception of the reads, or the loop over the message was cut off.
pub data ParseError : Type 0 where
  read_failed : ParseError
  too_many_rounds : ParseError

-- `IEntity`, with the baseline of a number; `number` is the field of an entity's state.
pub record EntityParser : Type 1 where
  pub Msg : Type 0
  pub Entity : Type 0
  pub number : Entity → ℕ
  pub read_entity_num : Msg → Result ParseError (ℕ × Msg)
  pub read_delta_entity : Msg → Entity → ℕ → Result ParseError (Entity × Msg)
  pub get_baseline : ℕ → Result ParseError Entity

-- ENTITYNUM_NONE, and the number that stands for the end of the old snapshot
abbrev pub none_number : ℕ
none_number = 1023

abbrev pub past_old : ℕ
past_old = 99999

-- `snap.deltaNum` of a message number and the byte that was read, as the 32 bits of an `int32_t`;
-- `is_positive` is the sign test on it.
pub delta_num : ℕ → ℕ → ℕ
delta_num message_num byte = if byte == 0 then u32_mod - 1 else sub_u32 message_num byte

pub is_positive : ℕ → Bool
is_positive n = not (n == 0 || leb 2147483648 n)

module _ {Content : Type 0} where
  -- What the checks of `readOldSnapshot` say of the snapshot it finds.
  pub is_delta_valid : ℕ → ℕ → RawSnapshot Content → Bool
  is_delta_valid delta parse_entities_num old =
      if not old.valid
      then false
      else if not (old.message_num == delta)
      then false
      else not (ltb (old.parse_entities_num + (max_parse_entities - 128)) parse_entities_num)

  -- `readOldSnapshot`: the old snapshot, and whether the new one is valid.
  pub read_old_snapshot :
      ℕ → ℕ → ℕ → (ℕ → RawSnapshot Content) → Option (RawSnapshot Content) × Bool
  unfolding delta_num is_positive is_delta_valid
  read_old_snapshot message_num byte parse_entities_num snapshots =
      let delta = delta_num message_num byte in
      if not (is_positive delta)
      then (none, true)
      else let old = snapshots (delta % packet_backup) in
        (some old, is_delta_valid delta parse_entities_num old)

-- The old snapshot's part of the ring: where it starts and how many entities it has.
pub record OldFrame : Type 0 where
  pub base : ℕ
  pub size : ℕ

module _ (p : EntityParser) where
  open p use {Msg, Entity}

  -- The variables of `parsePacketEntities` and the new snapshot's count.
  pub record Parsing : Type 0 where
    pub ring : ℕ → Entity
    pub parse_entities_num : ℕ
    pub num_entities : ℕ
    pub old_index : ℕ
    pub old_num : ℕ

  abbrev pub at : (ℕ → Entity) → ℕ → Entity
  at ring i = ring (i % max_parse_entities)

  abbrev pub assign : (ℕ → Entity) → ℕ → Entity → ℕ → Entity
  assign ring i e j = if i % max_parse_entities == j then e else ring j

  -- `parseDeltaEntity` once the state is known.
  unfoldable pub put : Entity → Parsing → Parsing
  put e s =
      let written = record s { ring = assign s.ring s.parse_entities_num e } in
      if p.number e == none_number then written else record written {
        parse_entities_num = add_u32 s.parse_entities_num 1;
        num_entities = add_u32 s.num_entities 1;
      }

  -- `oldState`, and the step to the next entity of the old snapshot
  abbrev pub old_state : OldFrame → Parsing → Entity
  old_state old s = at s.ring (old.base + s.old_index)

  unfoldable pub advance : OldFrame → Parsing → Parsing
  advance old s =
      let index = s.old_index + 1 in
      record s {
        old_index = index;
        old_num = if leb old.size index then past_old else p.number (at s.ring (old.base + index));
      }

  -- An entity of the old snapshot that is unchanged.
  unfoldable pub copy_old : OldFrame → Parsing → Parsing
  unfolding put advance
  copy_old old s = advance old (put (old_state old s) s)

  -- `while (oldNum < newNum)`, and `while (oldNum != 99999)` where `new_num` is 99999: the number of an
  -- entity has 16 bits. The end of the old snapshot stops it.
  unfoldable pub skip_older : ℕ → OldFrame → ℕ → Parsing → Parsing
  unfolding copy_old
  skip_older zero old new_num s = s
  skip_older (suc rounds) old new_num s =
      let later = skip_older rounds old new_num (copy_old old s) in
      if ltb s.old_num new_num then later else s

  -- The rounds that are left of the old snapshot.
  abbrev pub old_rounds : OldFrame → Parsing → ℕ
  old_rounds old s = old.size - s.old_index + 1

  -- The body of the loop for a number that was read.
  unfoldable pub parse_entity : OldFrame → ℕ → Msg → Parsing → Result ParseError (Msg × Parsing)
  unfolding skip_older put advance
  parse_entity old new_num msg s =
      let t = skip_older (old_rounds old s) old new_num s in
      if t.old_num == new_num
      then (do
        (e, rest) ← p.read_delta_entity msg (old_state old t) new_num
        ok (rest, advance old (put e t)))
      else (do
        from ← p.get_baseline new_num
        (e, rest) ← p.read_delta_entity msg from new_num
        ok (rest, put e t))

  -- The two loops of `parsePacketEntities`. `rounds` bounds the numbers that are read.
  unfoldable pub parse_entities : ℕ → OldFrame → Msg → Parsing → Result ParseError (Msg × Parsing)
  unfolding parse_entity skip_older
  parse_entities zero old msg s = err too_many_rounds
  parse_entities (suc rounds) old msg s = do
    (new_num, rest) ← p.read_entity_num msg
    if new_num == none_number
        then ok (rest, skip_older (old_rounds old s) old past_old s)
        else (do (rest', t) ← parse_entity old new_num rest s; parse_entities rounds old rest' t)

  abbrev pub first_number : (ℕ → Entity) → Option OldFrame → ℕ
  first_number ring none = past_old
  first_number ring (some frame) = p.number (at ring frame.base)

  -- How `parsePacketEntities` starts: without an old snapshot there is nothing to copy. The number of
  -- the first old entity is read without looking whether there is one.
  unfoldable pub start_parsing : Option OldFrame → ℕ → (ℕ → Entity) → Parsing
  start_parsing old num ring = record {
    ring = ring;
    parse_entities_num = num;
    num_entities = 0;
    old_index = 0;
    old_num = first_number ring old;
  }

  -- Nothing is read of a snapshot that is missing, so its base can be any.
  abbrev pub frame_of : ℕ → Option OldFrame → OldFrame
  frame_of num none = record { base = num; size = 0 }
  frame_of num (some frame) = frame

  -- `parsePacketEntities`
  pub parse_packet_entities :
      ℕ → Option OldFrame → ℕ → (ℕ → Entity) → Msg → Result ParseError (Msg × Parsing)
  unfolding parse_entities start_parsing
  parse_packet_entities rounds old num ring msg =
      parse_entities rounds (frame_of num old) msg (start_parsing old num ring)
