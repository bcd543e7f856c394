-- ===== src/Snapshot/Window.antt =====
-- Which snapshots are found again.
use mohpc.Base.{
  ℕ, zero, suc, ◌+◌, ◌-◌, ◌%◌, ◌≡◌, ◌≤◌, ◌<◌, ◌⊎◌, inl, inr, refl, ap, ◌∙◌, arith, false,
  Bool-cases, leb, ◌==◌, none, add_size, u32_mod,
}
use mohpc.Snapshot.{
  RawSnapshot, SnapshotManager, packet_backup, invalidate, first_lost, set_new_snap, get_snapshot,
  snapshot_info,
}

module _ {Content : Type 0} where
  invalidate_misses :
      (count old n : ℕ) (snaps : ℕ → RawSnapshot Content)
      → n < old
      → old + count ≤ n + packet_backup
      → invalidate count old snaps (n % packet_backup) ≡ snaps (n % packet_backup)
  unfolding invalidate
  invalidate_misses zero old n snaps h k = refl
  invalidate_misses (suc count) old n snaps h k =
      invalidate_misses count (old + 1) n _ (omega arith) (omega arith) ∙ ground arith

  invalidate_hits :
      (count old n : ℕ) (snaps : ℕ → RawSnapshot Content)
      → old ≤ n
      → n < old + count
      → count ≤ packet_backup
      → (invalidate count old snaps (n % packet_backup)).valid ≡ false
  unfolding invalidate
  invalidate_hits zero old n snaps h k b = absurd (omega arith)
  invalidate_hits (suc count) old n snaps h k b = elim (Bool-cases (old == n)) [
    | inl e ↦
        ap (λ s. s.valid) (invalidate_misses count (old + 1) n _ (ground arith) (ground arith))
        ∙ ground arith
    | inr e ↦ invalidate_hits count (old + 1) n _ (ground arith) (omega arith) (omega arith)
  ]

module _ {Content Entity : Type 0} where
  pub slot_kept :
      (m : SnapshotManager Content Entity) (new : RawSnapshot Content) (n : ℕ)
      → m.current_snap.message_num < new.message_num
      → new.message_num < u32_mod
      → n ≤ m.current_snap.message_num
      → new.message_num < n + packet_backup
      → (set_new_snap new m).snapshots (n % packet_backup) ≡ m.snapshots (n % packet_backup)
  unfolding set_new_snap
  slot_kept m new n h b k w =
      let first : first_lost m.current_snap.message_num new.message_num
          ≡ m.current_snap.message_num + 1 =
        ground arith in
      let old = first_lost m.current_snap.message_num new.message_num in
      let other : (new.message_num % packet_backup == n % packet_backup) ≡ false = ground arith in
      let loop =
        invalidate_misses (new.message_num - old) old n m.snapshots (omega arith) (omega arith) in
      rw other loop

  pub slot_lost :
      (m : SnapshotManager Content Entity) (new : RawSnapshot Content) (n : ℕ)
      → new.message_num < u32_mod
      → n < new.message_num
      → m.current_snap.message_num < n
      → new.message_num < n + packet_backup
      → ((set_new_snap new m).snapshots (n % packet_backup)).valid ≡ false
  unfolding set_new_snap
  slot_lost m new n b k c w =
      let old = first_lost m.current_snap.message_num new.message_num in
      let low : old ≤ n = ground arith in
      let other : (new.message_num % packet_backup == n % packet_backup) ≡ false = ground arith in
      let near : new.message_num - old ≤ packet_backup = ground arith in
      let loop = invalidate_hits (new.message_num - old) old n m.snapshots low (omega arith) near in
      rw other loop

  -- A new snapshot with a higher number of 32 bits keeps what getSnapshot gives for each number up
  -- to the last one, as far as it is less than PACKET_BACKUP behind the new one.
  pub set_new_snap-keeps :
      (m : SnapshotManager Content Entity) (new : RawSnapshot Content) (n : ℕ)
      → m.current_snap.message_num < new.message_num
      → new.message_num < u32_mod
      → n ≤ m.current_snap.message_num
      → new.message_num < n + packet_backup
      → get_snapshot n (set_new_snap new m) ≡ get_snapshot n m
  unfolding get_snapshot set_new_snap
  set_new_snap-keeps m new n h b k w =
      let early : leb (add_size packet_backup n) new.message_num ≡ false = ground arith in
      let early' : leb (add_size packet_backup n) m.current_snap.message_num ≡ false =
        ground arith in
      rw early (
        rw early' (
          ap (λ s. snapshot_info s m.parse_entities m.parse_entities_count)
            (slot_kept m new n h b k w)))

  pub not_valid :
      (s : RawSnapshot Content) (entities : ℕ → Entity) (total : ℕ)
      → s.valid ≡ false
      → snapshot_info s entities total ≡ none
  unfolding snapshot_info
  not_valid s entities total h = rw h refl

  -- Of the numbers below the new one, which is above the last one and of 32 bits, those that were
  -- skipped and those that are PACKET_BACKUP or more behind it are not found.
  pub set_new_snap-loses :
      (m : SnapshotManager Content Entity) (new : RawSnapshot Content) (n : ℕ)
      → m.current_snap.message_num < new.message_num
      → new.message_num < u32_mod
      → n < new.message_num
      → (m.current_snap.message_num < n) ⊎ (n + packet_backup ≤ new.message_num)
      → get_snapshot n (set_new_snap new m) ≡ none
  unfolding set_new_snap get_snapshot
  set_new_snap-loses m new n h b k w =
      elim (Bool-cases (leb (add_size packet_backup n) new.message_num)) [
        | inl e ↦ rw e refl
        | inr e ↦
            let late : m.current_snap.message_num < n = ground arith in
            rw e (
              not_valid ((set_new_snap new m).snapshots (n % packet_backup)) m.parse_entities
                m.parse_entities_count (slot_lost m new n b k late (ground arith)))
      ]

  -- A number up to the last one and less than PACKET_BACKUP behind it, and the number PACKET_BACKUP
  -- more, are answered with the same snapshot: a number the server has not sent yet is answered
  -- with an old snapshot.
  pub get_snapshot-future :
      (m : SnapshotManager Content Entity) (n : ℕ)
      → m.current_snap.message_num < u32_mod
      → n ≤ m.current_snap.message_num
      → m.current_snap.message_num < n + packet_backup
      → get_snapshot (n + packet_backup) m ≡ get_snapshot n m
  unfolding get_snapshot
  get_snapshot-future m n b k w =
      let early : leb (add_size packet_backup n) m.current_snap.message_num ≡ false =
        ground arith in
      let early' : leb (add_size packet_backup (n + packet_backup)) m.current_snap.message_num
          ≡ false =
        ground arith in
      let same : (n + packet_backup) % packet_backup ≡ n % packet_backup = omega arith in
      rw early (rw early' (rw same refl))
