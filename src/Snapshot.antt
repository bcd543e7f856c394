-- ===== src/Snapshot.antt =====
-- `ServerSnapshotManager` of mohpc-lib/Network/Client/ServerSnapshot.cpp: the snapshots that the server
-- sends, kept in a ring of PACKET_BACKUP. `Content` stands for the player state, the area mask and the
-- sounds of a snapshot, `Entity` for an entity's state; both are only copied. An array is a function of
-- the index, and the source's masks with a power of two less one are remainders.
pub mod Window
pub mod Runs
pub mod Activity
mod Tests
use mohpc.Base.{
  ℕ, zero, suc, ◌+◌, ◌-◌, ◌%◌, ◌/◌, List, [], ◌∷◌, ◌++◌, Bool, true, false, not, ◌&&◌, leb, ◌==◌,
  if◌then◌else◌, min, Option, none, some, add_u32, add_size,
}

-- `rawSnapshot_t`
pub record RawSnapshot (Content : Type 0) : Type 0 where
  pub server_time : ℕ
  pub message_num : ℕ
  pub num_entities : ℕ
  pub parse_entities_num : ℕ
  pub server_command_num : ℕ
  pub snap_flags : ℕ
  pub valid : Bool
  pub content : Content

-- `SnapshotInfo`
pub record SnapshotInfo (Content Entity : Type 0) : Type 0 where
  pub info_flags : ℕ
  pub info_server_command_sequence : ℕ
  pub info_server_time : ℕ
  pub info_content : Content
  pub info_entities : List Entity

-- What a manager tells its handlers.
pub data Notification (Content : Type 0) : Type 0 where
  first_snapshot : RawSnapshot Content → Notification Content
  server_restarted : Notification Content

pub record SnapshotManager (Content Entity : Type 0) : Type 0 where
  pub current_snap : RawSnapshot Content
  pub snapshots : ℕ → RawSnapshot Content
  pub parse_entities : ℕ → Entity
  pub parse_entities_count : ℕ
  pub last_snap_flags : ℕ
  pub snap_active : Bool
  pub new_snapshots : Bool
  pub notified : List (Notification Content)

abbrev pub packet_backup : ℕ
packet_backup = 32

abbrev pub max_parse_entities : ℕ
max_parse_entities = 2048

abbrev pub max_entities_in_snapshot : ℕ
max_entities_in_snapshot = 1024

-- Where the loop starts.
unfoldable pub first_lost : ℕ → ℕ → ℕ
first_lost current new =
    let old = add_u32 current 1 in
    if leb (packet_backup + old) new then new - (packet_backup - 1) else old

-- `flags & SNAPFLAG_NOT_ACTIVE` and `flags & SNAPFLAG_SERVERCOUNT`
abbrev pub is_not_active : ℕ → Bool
is_not_active flags = flags / 2 % 2 == 1

abbrev pub server_count : ℕ → ℕ
server_count flags = flags / 4 % 2

-- The entities that `getSnapshot` copies, from place `i` of the ring on.
unfoldable pub copy_entities : {Entity : Type 0} → ℕ → ℕ → (ℕ → Entity) → List Entity
copy_entities zero i entities = []
copy_entities (suc count) i entities =
    entities (i % max_parse_entities) ∷ copy_entities count (i + 1) entities

module _ {Content : Type 0} where
  -- An assignment to one place of an array.
  abbrev pub assign : ℕ → RawSnapshot Content → (ℕ → RawSnapshot Content) → ℕ → RawSnapshot Content
  assign i s snaps j = if i == j then s else snaps j

  -- The loop of `setNewSnap`: `count` rounds from the number `old` on.
  unfoldable pub invalidate : ℕ → ℕ → (ℕ → RawSnapshot Content) → ℕ → RawSnapshot Content
  invalidate zero old snaps = snaps
  invalidate (suc count) old snaps =
      let i = old % packet_backup in
      invalidate count (old + 1) (assign i (record (snaps i) { valid = false }) snaps)

module _ {Content Entity : Type 0} where
  -- `setNewSnap`
  unfoldable pub set_new_snap :
      RawSnapshot Content → SnapshotManager Content Entity → SnapshotManager Content Entity
  unfolding invalidate first_lost
  set_new_snap new m =
      let old = first_lost m.current_snap.message_num new.message_num in
      let lost = invalidate (new.message_num - old) old m.snapshots in
      record m {
        current_snap = new;
        snapshots = assign (new.message_num % packet_backup) new lost;
        new_snapshots = true;
      }

  -- What `getSnapshot` makes of the snapshot it finds: none if the snapshot is not valid or its
  -- entities are overwritten.
  unfoldable pub snapshot_info :
      RawSnapshot Content → (ℕ → Entity) → ℕ → Option (SnapshotInfo Content Entity)
  unfolding copy_entities
  snapshot_info found entities total =
      if not found.valid
      then none
      else if leb (max_parse_entities + found.parse_entities_num) total
      then none
      else some (record {
        info_flags = found.snap_flags;
        info_server_command_sequence = found.server_command_num;
        info_server_time = found.server_time;
        info_content = found.content;
        info_entities =
            copy_entities (min found.num_entities max_entities_in_snapshot) found.parse_entities_num
              entities;
      })

  -- `getSnapshot`: none if the code returns false.
  unfoldable pub get_snapshot :
      ℕ → SnapshotManager Content Entity → Option (SnapshotInfo Content Entity)
  unfolding snapshot_info
  get_snapshot number m =
      if leb (add_size packet_backup number) m.current_snap.message_num
      then none
      else snapshot_info (m.snapshots (number % packet_backup)) m.parse_entities
          m.parse_entities_count

  -- `getSnapshot` of the current snapshot
  pub get_current_snapshot : SnapshotManager Content Entity → Option (SnapshotInfo Content Entity)
  unfolding get_snapshot
  get_current_snapshot m = get_snapshot m.current_snap.message_num m

  -- `updateSnapFlags`
  pub update_snap_flags : SnapshotManager Content Entity → SnapshotManager Content Entity
  update_snap_flags m = record m { last_snap_flags = m.current_snap.snap_flags }

  -- `firstSnapshot`
  pub notify_first_snapshot : SnapshotManager Content Entity → Bool × SnapshotManager Content Entity
  unfolding update_snap_flags
  notify_first_snapshot m =
      if is_not_active m.current_snap.snap_flags
      then (false, m)
      else let m' = record (update_snap_flags m) { snap_active = true } in
        (true, record m' { notified = m.notified ++ first_snapshot m.current_snap ∷ [] })

  -- `serverRestarted`
  pub notify_server_restarted : SnapshotManager Content Entity → SnapshotManager Content Entity
  unfolding update_snap_flags
  notify_server_restarted m =
      let m' = update_snap_flags m in record m' { notified = m.notified ++ server_restarted ∷ [] }

  -- `checkTime`
  pub check_time : SnapshotManager Content Entity → Bool × SnapshotManager Content Entity
  unfolding notify_first_snapshot notify_server_restarted
  check_time m =
      if not m.snap_active && m.new_snapshots
      then notify_first_snapshot (record m { new_snapshots = false })
      else let m' =
          if server_count m.current_snap.snap_flags == server_count m.last_snap_flags
          then m
          else notify_server_restarted m in
        (false, record m' { new_snapshots = false })
