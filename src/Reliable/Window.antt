-- ===== src/Reliable/Window.antt =====
-- Which commands a sequence still holds, and which it loses.
use native.Mathlib.Nat.{mod-lt}
use mohpc.Base.{
  ℕ, ◌⊎◌, inl, inr, Bool-cases, leb, ◌+◌, ◌%◌, ◌<◌, ◌≤◌, ◌≡◌, ◌≢◌, arith, List, [], length, add_u32,
  u32_mod, get_or-set_self, get_or-set_ne, length-set, sym, refl, ap, ◌∙◌, ◌∷◌, le→not_ltb, lt→ltb,
}
use mohpc.Reliable.{
  Slots, ReliableSequence, CommandSequence, truncate, max_elements, add_command, get_sequence,
  update_acknowledge, add_remote_command, set_slot, get_slot, get_remote_sequence,
}

-- Two numbers closer than the modulus have different remainders.
mod_distinct : (a b m : ℕ) → a < b → b < a + m → a % m ≢ b % m
mod_distinct a b m h k e = grind arith

wraps_round : (a s m : ℕ) → s ≡ a + m → (a + 1) % m ≡ (s + 1) % m
wraps_round a s m e = grind arith

-- The row that is written, and any other.
set_slot-same :
    (s : Slots) (n : ℕ) (command : List ℕ)
    → 0 < max_elements s
    → get_slot
        (set_slot (n % max_elements s) command s)
        (n % max_elements (set_slot (n % max_elements s) command s))
      ≡ truncate s command
unfolding set_slot get_slot
set_slot-same s n command h =
    rw length-set
      (get_or-set_self s.slots (n % length s.slots) (truncate s command) [] (mod-lt n h))

set_slot-other :
    (s : Slots) (n j : ℕ) (command : List ℕ)
    → j < n
    → n < j + max_elements s
    → get_slot
        (set_slot (n % max_elements s) command s)
        (j % max_elements (set_slot (n % max_elements s) command s))
      ≡ get_slot s (j % max_elements s)
unfolding set_slot get_slot
set_slot-other s n j command h k = rw length-set (
    get_or-set_ne s.slots (n % length s.slots) (j % length s.slots) (truncate s command) []
      (λ e. mod_distinct j n (length s.slots) h k (sym e)))

abbrev stored : List ℕ → ReliableSequence → ReliableSequence
stored command r = record r {
  reliable_sequence = r.reliable_sequence + 1;
  store = set_slot ((r.reliable_sequence + 1) % max_elements r.store) command r.store;
}

add_command-eq :
    (r : ReliableSequence) (command : List ℕ)
    → r.reliable_sequence ≤ r.reliable_acknowledge + max_elements r.store
    → r.reliable_sequence + 1 < u32_mod
    → add_command command r ≡ stored command r
unfolding add_command
add_command-eq r command w u =
    rw (le→not_ltb _ _ w)
      (let same : add_u32 r.reliable_sequence 1 ≡ r.reliable_sequence + 1 = omega arith in rw same)

-- Until the counter wraps and while the server is not more than `getMaxElements` commands behind,
-- `addCommand` stores the command, cut to the row, under the next number; and each of the last
-- `getMaxElements - 1` commands before it is still there.
pub add_command-keeps :
    (r : ReliableSequence) (command : List ℕ) (j : ℕ)
    → 0 < max_elements r.store
    → r.reliable_sequence ≤ r.reliable_acknowledge + max_elements r.store
    → r.reliable_sequence + 1 < u32_mod
    → j ≤ r.reliable_sequence
    → r.reliable_sequence + 1 < j + max_elements r.store
    → ((add_command command r).reliable_sequence ≡ r.reliable_sequence + 1)
      × (get_sequence (add_command command r) (r.reliable_sequence + 1) ≡ truncate r.store command)
      × (get_sequence (add_command command r) j ≡ get_sequence r j)
unfolding get_sequence
add_command-keeps r command j h w u p q = rw (add_command-eq r command w u) (
  refl,
  set_slot-same r.store (r.reliable_sequence + 1) command h,
  set_slot-other r.store (r.reliable_sequence + 1) j command (omega arith) q,
)

-- Beyond that the command is dropped and nothing changes.
pub add_command-full :
    (r : ReliableSequence) (command : List ℕ)
    → r.reliable_acknowledge + max_elements r.store < r.reliable_sequence
    → add_command command r ≡ r
unfolding add_command
add_command-full r command h = rw (lt→ltb _ _ h)

-- The guard of `addCommand` lets one command too many in: when exactly `getMaxElements` commands
-- are not acknowledged, the next one takes the row of the oldest of them, and `getSequence` gives
-- the new command under the old number.
pub add_command-overwrites :
    (r : ReliableSequence) (command : List ℕ)
    → 0 < max_elements r.store
    → r.reliable_sequence ≡ r.reliable_acknowledge + max_elements r.store
    → r.reliable_sequence + 1 < u32_mod
    → get_sequence (add_command command r) (r.reliable_acknowledge + 1) ≡ truncate r.store command
unfolding get_sequence set_slot
add_command-overwrites r command h e u = rw (add_command-eq r command (omega arith) u) (
    let m : ℕ = max_elements (stored command r).store in
    let same : (r.reliable_acknowledge + 1) % m ≡ (r.reliable_sequence + 1) % m =
      wraps_round r.reliable_acknowledge r.reliable_sequence m
        (e ∙ ap (◌+◌ _) (sym (length-set _ _ _))) in
    ap (get_slot (stored command r).store) same
    ∙ set_slot-same r.store (r.reliable_sequence + 1) command h)

-- What the owner of a sequence does with it.
pub data Op : Type 0 where
  add : List ℕ → Op
  acknowledge : ℕ → Op

pub run : List Op → ReliableSequence → ReliableSequence
run [] r = r
run (add command ∷ ops) r = run ops (add_command command r)
run (acknowledge n ∷ ops) r = run ops (update_acknowledge n r)

abbrev IsBounded : ReliableSequence → Type 0
IsBounded r = r.reliable_sequence ≤ r.reliable_acknowledge + max_elements r.store + 1

add_command-IsBounded :
    (command : List ℕ) (r : ReliableSequence) → IsBounded r → IsBounded (add_command command r)
unfolding add_command set_slot
add_command-IsBounded command r h = ground (
  arith,
  length-set r.store.slots (add_u32 r.reliable_sequence 1 % max_elements r.store)
      (truncate r.store command),
)

update_acknowledge-IsBounded :
    (n : ℕ) (r : ReliableSequence) → IsBounded r → IsBounded (update_acknowledge n r)
unfolding update_acknowledge
update_acknowledge-IsBounded n r h = ground arith

-- Whatever commands are added and whatever the server acknowledges, in any order, the sequence
-- number is never more than `getMaxElements + 1` past what is acknowledged.
pub run-IsBounded :
    (ops : List Op) (r : ReliableSequence)
    → r.reliable_sequence ≤ r.reliable_acknowledge + max_elements r.store + 1
    → (run ops r).reliable_sequence
      ≤ (run ops r).reliable_acknowledge + max_elements (run ops r).store + 1
unfolding run
run-IsBounded [] r h = h
run-IsBounded (add command ∷ ops) r h =
    run-IsBounded ops (add_command command r) (add_command-IsBounded command r h)
run-IsBounded (acknowledge n ∷ ops) r h =
    run-IsBounded ops (update_acknowledge n r) (update_acknowledge-IsBounded n r h)

-- After `updateAcknowledge` the sequence number is at most `getMaxElements` past the acknowledged
-- one, which is the server's number where that already is in range and the last command sent
-- otherwise; no command is touched.
pub update_acknowledge_lem :
    (n : ℕ) (r : ReliableSequence)
    → let r' = update_acknowledge n r in
      (r'.reliable_sequence ≤ r'.reliable_acknowledge + max_elements r'.store)
      × (((r.reliable_sequence ≤ n + max_elements r.store) × (r'.reliable_acknowledge ≡ n))
          ⊎ ((n + max_elements r.store < r.reliable_sequence)
              × (r'.reliable_acknowledge ≡ r.reliable_sequence)))
      × (r'.store ≡ r.store)
unfolding update_acknowledge
update_acknowledge_lem n r = (ground arith, ground arith, refl)

-- A command from the server is stored, cut to the row, exactly if its number is new; then it is
-- the last one, and each of the `getMaxElements - 1` numbers below it reads as before. A number
-- that was already reached changes nothing.
pub add_remote_command_lem :
    (command : List ℕ) (n j : ℕ) (c : CommandSequence)
    → 0 < max_elements c.store
    → j < n
    → n < j + max_elements c.store
    → let c' = add_remote_command command n c in
      ((n ≤ c.remote_command_sequence) × (c' ≡ c))
      ⊎ ((c.remote_command_sequence < n)
          × (c'.remote_command_sequence ≡ n)
          × (get_remote_sequence c' n ≡ truncate c.store command)
          × (get_remote_sequence c' j ≡ get_remote_sequence c j))
unfolding add_remote_command get_remote_sequence
add_remote_command_lem command n j c h p q = elim (Bool-cases (leb n c.remote_command_sequence)) [
  | inl old ↦ inl (ground arith, rw old refl)
  | inr new ↦ inr (
    ground arith,
    rw new refl,
    rw new (set_slot-same c.store n command h),
    rw new (set_slot-other c.store n j command p q),
  )
]
