-- ===== src/Snapshot/Activity.antt =====
-- When the handlers hear of the first snapshot and of a restart of the server.
use mohpc.Base.{ℕ, ◌+◌, ◌≡◌, arith, List, [], ◌∷◌, ◌++◌, true, false, if◌then◌else◌}
use mohpc.Snapshot.{
  RawSnapshot, SnapshotManager, Notification, first_snapshot, server_restarted, set_new_snap,
  check_time,
}

-- What happens to a manager: a snapshot comes in, or a frame checks the time.
pub data Step (Content : Type 0) : Type 0 where
  receives : RawSnapshot Content → Step Content
  checks : Step Content

abbrev pub first_count : {Content : Type 0} → List (Notification Content) → ℕ
first_count [] = 0
first_count (first_snapshot s ∷ rest) = first_count rest + 1
first_count (server_restarted ∷ rest) = first_count rest

first_count-append :
    {Content : Type 0} (a b : List (Notification Content))
    → first_count (a ++ b) ≡ first_count a + first_count b
first_count-append [] b = omega arith
first_count-append (first_snapshot s ∷ a) b = omega (arith, first_count-append a b)
first_count-append (server_restarted ∷ a) b = first_count-append a b

module _ {Content Entity : Type 0} where
  pub run : List (Step Content) → SnapshotManager Content Entity → SnapshotManager Content Entity
  run [] m = m
  run (receives s ∷ rest) m = run rest (set_new_snap s m)
  run (checks ∷ rest) m = run rest (check_time m).1

  abbrev pub IsCounted : SnapshotManager Content Entity → Type 0
  IsCounted m = first_count m.notified ≡ (if m.snap_active then 1 else 0)

  check_time-IsCounted :
      (m : SnapshotManager Content Entity) → IsCounted m → IsCounted (check_time m).1
  unfolding check_time
  check_time-IsCounted m h = ground (
    arith,
    first_count-append m.notified (first_snapshot m.current_snap ∷ []),
    first_count-append m.notified (server_restarted ∷ []),
    h,
  )

  -- Whatever comes in and however often the time is checked, the handlers hear of a first snapshot at
  -- most once: once if the manager is active then, never otherwise.
  pub check_time-once :
      (steps : List (Step Content)) (m : SnapshotManager Content Entity)
      → first_count m.notified ≡ (if m.snap_active then 1 else 0)
      → first_count (run steps m).notified ≡ (if (run steps m).snap_active then 1 else 0)
  unfolding run set_new_snap
  check_time-once [] m h = h
  check_time-once (receives s ∷ rest) m h = check_time-once rest (set_new_snap s m) h
  check_time-once (checks ∷ rest) m h =
      check_time-once rest (check_time m).1 (check_time-IsCounted m h)

  -- Of an active manager a second check right after the first changes nothing and tells nobody.
  pub check_time-settles :
      (m : SnapshotManager Content Entity)
      → m.snap_active ≡ true
      → check_time (check_time m).1 ≡ (false, (check_time m).1)
  unfolding check_time
  check_time-settles m h = ground (arith, h)
