-- ===== src/Entities/Old.antt =====
-- From the old snapshot that readOldSnapshot finds to the entities that parsePacketEntities makes.
use mohpc.Base.{
  ℕ, suc, ◌+◌, ◌-◌, ◌%◌, ◌≡◌, ◌≤◌, ◌<◌, refl, subst, ap, arith, List, [], ◌∷◌, Bool, true, false,
  not, length, if◌then◌else◌, Option, none, some, u32_mod,
}
use mohpc.Snapshot.{RawSnapshot, packet_backup, max_parse_entities}
use mohpc.Entities.{
  EntityParser, OldFrame, delta_num, is_positive, is_delta_valid, read_old_snapshot, start_parsing,
  frame_of, parse_packet_entities,
}
use mohpc.Entities.Reference.{merge}
use mohpc.Entities.Ring.{Holds, Amid, HasRoom}
use mohpc.Entities.Merge.{AreListed, HasShortNumbers, Agree}
use mohpc.Entities.Refine.{parse_entities-Agree}

module _ (p : EntityParser) where
  open p use {Msg, Entity}

  -- The old entities lie in the ring, and there is at least one unless there is no old snapshot.
  abbrev pub AreHeld : (ℕ → Entity) → Option OldFrame → List Entity → Type 0
  AreHeld ring none [] = Unit {0}
  AreHeld ring none (o ∷ olds) = ⊥
  AreHeld ring (some frame) [] = ⊥
  AreHeld ring (some frame) (o ∷ olds) =
      (frame.size ≡ suc (length olds)) × Holds p ring frame.base (o ∷ olds)

  start-Amid :
      (old : Option OldFrame) (num : ℕ) (ring : ℕ → Entity) (olds : List Entity)
      → AreHeld ring old olds
      → Amid p (frame_of p num old) num olds [] (start_parsing p old num ring)
  unfolding start_parsing
  start-Amid none num ring [] h = record {
    left = refl;
    olds_held = tt;
    next = refl;
    news_held = tt;
    place = omega arith;
    counted = refl;
  }
  start-Amid none num ring (o ∷ olds) h = absurd h
  start-Amid (some frame) num ring [] h = absurd h
  start-Amid (some frame) num ring (o ∷ olds) h = record {
    left = omega (arith, h.0);
    olds_held = subst (λ i. Holds p ring i (o ∷ olds)) (omega arith) h.1;
    next = ap p.number h.1.0;
    news_held = tt;
    place = omega arith;
    counted = refl;
  }

  -- With entity numbers in a message of at most 1023, and below 1023 in the old snapshot, which is
  -- missing or lies in the ring with at least one entity, and room for a new one of its size and as
  -- many more as numbers are read: parsePacketEntities does on the ring what the merge of the old
  -- entities with the deltas of the message does on lists. Either both throw the same, or the
  -- message is read up to the same place and the new snapshot has just the merged entities, in
  -- order, from its first place on.
  pub parse_packet_entities-Agree :
      (rounds : ℕ) (old : Option OldFrame) (num : ℕ) (ring : ℕ → Entity) (msg : Msg)
      (olds : List Entity)
      → HasShortNumbers p
      → AreHeld ring old olds
      → AreListed p olds
      → HasRoom p (frame_of p num old) num [] (length olds + rounds)
      → Agree p
          (frame_of p num old)
          num
          []
          (merge p rounds msg olds)
          (parse_packet_entities p rounds old num ring msg)
  unfolding parse_packet_entities
  parse_packet_entities-Agree rounds old num ring msg olds short held all room =
      parse_entities-Agree p (frame_of p num old) num short rounds msg olds []
        (start_parsing p old num ring) all room (start-Amid old num ring olds held)

  -- The part of the ring that a snapshot has.
  abbrev pub frame : {Content : Type 0} → RawSnapshot Content → OldFrame
  frame old = record { base = old.parse_entities_num; size = old.num_entities }

module _ {Content : Type 0} (p : EntityParser) where
  valid-checked :
      (delta num : ℕ) (old : RawSnapshot Content)
      → is_delta_valid delta num old ≡ true
      → (old.valid ≡ true)
        × (old.message_num ≡ delta)
        × num ≤ old.parse_entities_num + (max_parse_entities - 128)
  unfolding is_delta_valid
  valid-checked delta num old h = ground (arith, h)

  abbrev or_else : RawSnapshot Content → Option (RawSnapshot Content) → RawSnapshot Content
  or_else d none = d
  or_else d (some x) = x

  found_there :
      (positive valid : Bool) (there old : RawSnapshot Content)
      → ◌≡◌ {A = Option (RawSnapshot Content) × Bool}
          (if not positive then (none, true) else (some there, valid))
          (some old, true)
      → (there ≡ old) × (valid ≡ true)
  found_there true valid there old h = (ap (λ x. or_else old x.0) h, ap (λ x. x.1) h)
  found_there false valid there old h = absurd (grind arith)

  read_old_snapshot-valid :
      (message_num byte num : ℕ) (snapshots : ℕ → RawSnapshot Content) (old : RawSnapshot Content)
      → read_old_snapshot message_num byte num snapshots ≡ (some old, true)
      → is_delta_valid (delta_num message_num byte) num old ≡ true
  unfolding read_old_snapshot
  read_old_snapshot-valid message_num byte num snapshots old h =
      let delta = delta_num message_num byte in
      let there = snapshots (delta % packet_backup) in
      let (same, valid) =
        found_there (is_positive delta) (is_delta_valid delta num there) there old h in
      subst (λ s. is_delta_valid delta num s ≡ true) same valid

  -- An old snapshot that readOldSnapshot takes as valid is valid and of just the number that was
  -- asked for; and if it lies below the new one, its places do not wrap around at 2^32, and its
  -- entities and those that may come are fewer than 128 in all, then the new entities find room in
  -- the ring without overwriting any of its own.
  pub read_old_snapshot-HasRoom :
      (message_num byte num rounds : ℕ) (snapshots : ℕ → RawSnapshot Content)
      (old : RawSnapshot Content)
      → read_old_snapshot message_num byte num snapshots ≡ (some old, true)
      → old.parse_entities_num + old.num_entities ≤ num
      → old.parse_entities_num + max_parse_entities ≤ u32_mod
      → old.num_entities + rounds < 128
      → (old.valid ≡ true)
        × (old.message_num ≡ delta_num message_num byte)
        × HasRoom p (frame p old) num [] (old.num_entities + rounds)
  read_old_snapshot-HasRoom message_num byte num rounds snapshots old h behind wraps small =
      let (valid, number, near) =
        valid-checked (delta_num message_num byte) num old
          (read_old_snapshot-valid message_num byte num snapshots old h) in
      (
        valid,
        number,
        record { behind = behind; room = omega (arith, near, small); no_wrap = wraps },
      )
