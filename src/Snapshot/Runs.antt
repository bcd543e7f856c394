-- ===== src/Snapshot/Runs.antt =====
-- Rows of snapshots: whatever is found was received, with the number that was asked for.
use mohpc.Base.{
  ℕ, ◌+◌, ◌%◌, ◌≡◌, ◌≤◌, ◌<◌, ◌≢◌, inl, inr, refl, sym, ap, subst, ◌∙◌, arith, List, [], ◌∷◌, Bool,
  true, false, Bool-cases, leb, ◌==◌, some, u32_mod, All,
}
use mohpc.Snapshot.{
  RawSnapshot, SnapshotInfo, SnapshotManager, packet_backup, set_new_snap, get_snapshot,
  snapshot_info,
}
use mohpc.Snapshot.Window.{slot_kept, slot_lost}

-- Numbers that rise, from above `last` on.
abbrev pub Rising : {Content : Type 0} → ℕ → List (RawSnapshot Content) → Type 0
Rising last [] = Unit {0}
Rising last (new ∷ rest) =
    (last < new.message_num) × (new.message_num < u32_mod) × Rising new.message_num rest

contradiction : {b : Bool} → b ≡ true → b ≢ false
contradiction t f = ground arith

place_kept :
    {Content : Type 0} (P : RawSnapshot Content → Type 0) (s s' : RawSnapshot Content) (n : ℕ)
    → s' ≡ s
    → s'.valid ≡ true
    → (s.valid ≡ true → P s × (s.message_num ≡ n))
    → P s' × (s'.message_num ≡ n)
place_kept P s s' n e v f =
    subst (λ x. P x × (x.message_num ≡ n)) (sym e) (f (sym (ap (λ x. x.valid) e) ∙ v))

module _ {Content Entity : Type 0} where
  -- Each number that is not PACKET_BACKUP or more behind has a snapshot of that number in its place,
  -- with the property `P`, or none that is valid.
  abbrev pub AllPlaces : (RawSnapshot Content → Type 0) → SnapshotManager Content Entity → Type 0
  AllPlaces P m =
      (n : ℕ)
      → n ≤ m.current_snap.message_num
      → m.current_snap.message_num < n + packet_backup
      → (m.snapshots (n % packet_backup)).valid ≡ true
      → P (m.snapshots (n % packet_backup)) × ((m.snapshots (n % packet_backup)).message_num ≡ n)

  unfoldable pub set_all :
      List (RawSnapshot Content) → SnapshotManager Content Entity → SnapshotManager Content Entity
  set_all [] m = m
  set_all (new ∷ rest) m = set_all rest (set_new_snap new m)

  slot_new :
      (m : SnapshotManager Content Entity) (new : RawSnapshot Content)
      → (set_new_snap new m).snapshots (new.message_num % packet_backup) ≡ new
  unfolding set_new_snap
  slot_new m new = ground arith

  set_new_snap-AllPlaces :
      (P : RawSnapshot Content → Type 0) (m : SnapshotManager Content Entity)
      (new : RawSnapshot Content)
      → AllPlaces P m
      → P new
      → m.current_snap.message_num < new.message_num
      → new.message_num < u32_mod
      → (n : ℕ) → n ≤ new.message_num
      → new.message_num < n + packet_backup
      → ((set_new_snap new m).snapshots (n % packet_backup)).valid ≡ true
      → P ((set_new_snap new m).snapshots (n % packet_backup))
        × (((set_new_snap new m).snapshots (n % packet_backup)).message_num ≡ n)
  set_new_snap-AllPlaces P m new all p h b n k w v = elim (Bool-cases (n == new.message_num)) [
    | inl e ↦
        let same : n ≡ new.message_num = ground arith in
        subst
          (λ i.
            P ((set_new_snap new m).snapshots (i % packet_backup))
            × (((set_new_snap new m).snapshots (i % packet_backup)).message_num ≡ i))
          (sym same)
          (place_kept P new _ new.message_num (slot_new m new)
            (subst (λ i. ((set_new_snap new m).snapshots (i % packet_backup)).valid ≡ true) same v)
            (λ _. (p, refl)))
    | inr e ↦ elim (Bool-cases (leb n m.current_snap.message_num)) [
      | inl l ↦
          let low : n ≤ m.current_snap.message_num = ground arith in
          place_kept P _ _ n (slot_kept m new n h b low w) v (all n low (omega arith))
      | inr l ↦ absurd (contradiction v (slot_lost m new n b (ground arith) (ground arith) w))
    ]
  ]

  found_place :
      (m : SnapshotManager Content Entity) (n : ℕ) (info : SnapshotInfo Content Entity)
      → m.current_snap.message_num < u32_mod
      → n ≤ m.current_snap.message_num
      → get_snapshot n m ≡ some info
      → (m.current_snap.message_num < n + packet_backup)
        × ((m.snapshots (n % packet_backup)).valid ≡ true)
        × (snapshot_info (m.snapshots (n % packet_backup)) m.parse_entities m.parse_entities_count
            ≡ some info)
  unfolding get_snapshot snapshot_info
  found_place m n info b k found = (ground arith, ground arith, ground arith)

  -- From a manager whose places have the property `P`, after a row of snapshots with rising numbers
  -- and the property, what `getSnapshot` finds for a number up to the last one is made of a snapshot
  -- of just that number, with the property.
  pub get_snapshot-set_all :
      (P : RawSnapshot Content → Type 0) (row : List (RawSnapshot Content))
      (m : SnapshotManager Content Entity) (n : ℕ) (info : SnapshotInfo Content Entity)
      → AllPlaces P m
      → All P row
      → Rising m.current_snap.message_num row
      → m.current_snap.message_num < u32_mod
      → n ≤ (set_all row m).current_snap.message_num
      → get_snapshot n (set_all row m) ≡ some info
      → (s : RawSnapshot Content) × P s
        × (s.message_num ≡ n)
        × (snapshot_info s (set_all row m).parse_entities (set_all row m).parse_entities_count
            ≡ some info)
  unfolding set_all set_new_snap
  get_snapshot-set_all P [] m n info places ps rise b k found =
      let (w, v, e) = found_place m n info b k found in
      let (p, same) = places n k w v in (m.snapshots (n % packet_backup), p, same, e)
  get_snapshot-set_all P (new ∷ rest) m n info places ps rise b k found =
      get_snapshot-set_all P rest (set_new_snap new m) n info
        (set_new_snap-AllPlaces P m new places ps.0 rise.0 rise.1) ps.1 rise.2 rise.1 k found
