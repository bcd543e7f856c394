-- ===== src/Snapshot/Tests.antt =====
-- Concrete managers, and the theorems on them there.
use mohpc.Base.{ℕ, ◌+◌, ◌≡◌, refl, arith, [], ◌∷◌, Bool, true, false, some}
use mohpc.Snapshot.{
  RawSnapshot, SnapshotInfo, SnapshotManager, set_new_snap, get_snapshot, snapshot_info,
}
use mohpc.Snapshot.Runs.{AllPlaces, set_all, get_snapshot-set_all}

-- The snapshot of a number, with its number as its content.
abbrev snap : Bool → ℕ → RawSnapshot ℕ
snap valid n = record {
  server_time = n + 1000;
  message_num = n;
  num_entities = 2;
  parse_entities_num = n + n;
  server_command_num = 0;
  snap_flags = 0;
  valid = valid;
  content = n;
}

abbrev start : SnapshotManager ℕ ℕ
start = record {
  current_snap = snap false 0;
  snapshots = λ _. snap false 0;
  parse_entities = λ i. i;
  parse_entities_count = 100;
  last_snap_flags = 0;
  snap_active = false;
  new_snapshots = false;
  notified = [];
}

abbrev of_seven : SnapshotManager ℕ ℕ
of_seven = record start { current_snap = snap true 7; snapshots = λ _. snap true 7 }

abbrev info_of : ℕ → SnapshotInfo ℕ ℕ
info_of n = record {
  info_flags = 0;
  info_server_command_sequence = 0;
  info_server_time = n + 1000;
  info_content = n;
  info_entities = (n + n) ∷ (n + n + 1) ∷ [];
}

finds : get_snapshot 7 of_seven ≡ some (info_of 7)
unfolding get_snapshot
finds = refl

abbrev IsReceived : RawSnapshot ℕ → Type 0
IsReceived s = s.content ≡ s.message_num

start-AllPlaces : AllPlaces IsReceived start
start-AllPlaces n h k v = absurd (ground arith)

get_snapshot-set_all_example :
    (s : RawSnapshot ℕ) × IsReceived s
    × (s.message_num ≡ 7)
    × (snapshot_info s
          (set_all (snap true 7 ∷ snap true 10 ∷ []) start).parse_entities
          (set_all (snap true 7 ∷ snap true 10 ∷ []) start).parse_entities_count
        ≡ some (info_of 7))
unfolding set_all set_new_snap get_snapshot
get_snapshot-set_all_example =
    get_snapshot-set_all IsReceived (snap true 7 ∷ snap true 10 ∷ []) start 7 (info_of 7)
      start-AllPlaces (refl, (refl, tt)) (omega arith, omega arith, (omega arith, omega arith, tt))
      (omega arith) (omega arith) refl

abbrev active : SnapshotManager ℕ ℕ
active = record of_seven { snap_active = true; last_snap_flags = 4 }
