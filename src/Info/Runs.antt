-- ===== src/Info/Runs.antt =====
-- Infos that keys are set in and removed from, one after the other.
use mohpc.Base.{
  ℕ, ◌≡◌, refl, ap₂, subst, ◌∙◌, inl, inr, arith, List, [], ◌∷◌, ◌++◌, Bool, true, false,
  Bool-cases, ◌==◌, ◌&&◌, ◌||◌,
}
use mohpc.Info.{Info, remove_key, set_value_for_key}
use mohpc.Info.Pairs.{Pair, IsWord, IsKey, same_key, without}
use mohpc.Info.Changes.{Has, remove_key-Has, set_value_for_key-Has}

abbrev pub has_key : List ℕ → List Pair → Bool
has_key key [] = false
has_key key ((k, v) ∷ kvs) = same_key k key || has_key key kvs

-- No key stands twice.
abbrev pub AreOnce : List Pair → Type 0
AreOnce [] = Unit {0}
AreOnce ((k, v) ∷ kvs) = (has_key k kvs ≡ false) × AreOnce kvs

same_key-sym : (s t : List ℕ) → same_key s t ≡ same_key t s
same_key-sym [] [] = refl
same_key-sym [] (d ∷ t) = refl
same_key-sym (c ∷ s) [] = refl
same_key-sym (c ∷ s) (d ∷ t) =
    let turned : (c == d) ≡ (d == c) = ground arith in ap₂ ◌&&◌ turned (same_key-sym s t)

pub same_key-equal : (s t : List ℕ) → same_key s t ≡ true → s ≡ t
same_key-equal [] [] h = refl
same_key-equal [] (d ∷ t) h = absurd (grind arith)
same_key-equal (c ∷ s) [] h = absurd (grind arith)
same_key-equal (c ∷ s) (d ∷ t) h =
    let head : c ≡ d = ground (arith, h) in
    let tail : same_key s t ≡ true = ground (arith, h) in ap₂ ◌∷◌ head (same_key-equal s t tail)

pub without-gone :
    (key : List ℕ) (kvs : List Pair) → AreOnce kvs → has_key key (without key kvs) ≡ false
unfolding without
without-gone key [] once = refl
without-gone key ((k, v) ∷ kvs) once = elim (Bool-cases (same_key k key)) [
  | inl same ↦ rw same (subst (λ x. has_key x kvs ≡ false) (same_key-equal k key same) once.0)
  | inr differ ↦ rw (differ, differ) (without-gone key kvs once.1)
]

without-no_more :
    (k key : List ℕ) (kvs : List Pair) → has_key k kvs ≡ false → has_key k (without key kvs) ≡ false
unfolding without
without-no_more k key [] h = refl
without-no_more k key ((k', v) ∷ kvs) h = elim (Bool-cases (same_key k' key)) [
  | inl same ↦ rw same (ground (arith, h))
  | inr differ ↦
      let rest : has_key k kvs ≡ false = ground (arith, h) in
      let here : same_key k' k ≡ false = ground (arith, h) in
      rw (differ, here) (without-no_more k key kvs rest)
]

without-AreOnce : (key : List ℕ) (kvs : List Pair) → AreOnce kvs → AreOnce (without key kvs)
unfolding without
without-AreOnce key [] once = tt
without-AreOnce key ((k, v) ∷ kvs) once = elim (Bool-cases (same_key k key)) [
  | inl same ↦ rw same once.1
  | inr differ ↦ rw differ (without-no_more k key kvs once.0, without-AreOnce key kvs once.1)
]

snoc-has_key :
    (k key value : List ℕ) (kvs : List Pair)
    → has_key k kvs ≡ false
    → same_key key k ≡ false
    → has_key k (kvs ++ (key, value) ∷ []) ≡ false
snoc-has_key k key value [] h differ = rw differ refl
snoc-has_key k key value ((k', v) ∷ kvs) h differ =
    let rest : has_key k kvs ≡ false = ground (arith, h) in
    let here : same_key k' k ≡ false = ground (arith, h) in
    rw here (snoc-has_key k key value kvs rest differ)

snoc-AreOnce :
    (key value : List ℕ) (kvs : List Pair)
    → has_key key kvs ≡ false
    → AreOnce kvs
    → AreOnce (kvs ++ (key, value) ∷ [])
snoc-AreOnce key value [] h once = (refl, tt)
snoc-AreOnce key value ((k, v) ∷ kvs) h once =
    let here : same_key k key ≡ false = ground (arith, h) in
    let rest : has_key key kvs ≡ false = ground (arith, h) in
    (
      snoc-has_key k key value kvs once.0 (same_key-sym key k ∙ here),
      snoc-AreOnce key value kvs rest once.1,
    )

-- A key is set or removed.
pub data Op : Type 0 where
  set_to : List ℕ → List ℕ → Op
  removed : List ℕ → Op

unfoldable pub run : List Op → Info → Info
unfolding set_value_for_key remove_key
run [] info = info
run (set_to key value ∷ ops) info = run ops (set_value_for_key key value info)
run (removed key ∷ ops) info = run ops (remove_key key info)

-- The pairs then
unfoldable pub pairs_after : List Op → List Pair → List Pair
unfolding without
pairs_after [] kvs = kvs
pairs_after (set_to key value ∷ ops) kvs = pairs_after ops (without key kvs ++ (key, value) ∷ [])
pairs_after (removed key ∷ ops) kvs = pairs_after ops (without key kvs)

abbrev pub AreFit : List Op → Type 0
AreFit [] = Unit {0}
AreFit (set_to key value ∷ ops) = IsKey key × IsWord value × AreFit ops
AreFit (removed key ∷ ops) = IsWord key × AreFit ops

-- From an info whose string stands for a list of pairs, no key twice, with keys that are set and
-- removed in any order, keys not empty where they are set and no NUL or backslash in any key or
-- value: the string then stands for the list in which each set put its pair at the end, in place
-- of the one of the same key, and each removal took one away; again no key is in it twice.
pub run-Has :
    (ops : List Op) (kvs : List Pair) (info : Info)
    → AreFit ops
    → AreOnce kvs
    → Has kvs info
    → Has (pairs_after ops kvs) (run ops info) × AreOnce (pairs_after ops kvs)
unfolding run pairs_after
run-Has [] kvs info fit once has = (has, once)
run-Has (set_to key value ∷ ops) kvs info (hk, hv, fit) once has =
    run-Has ops (without key kvs ++ (key, value) ∷ []) (set_value_for_key key value info) fit
      (snoc-AreOnce key value (without key kvs) (without-gone key kvs once)
        (without-AreOnce key kvs once))
      (set_value_for_key-Has key value kvs info hk hv has)
run-Has (removed key ∷ ops) kvs info (word, fit) once has =
    run-Has ops (without key kvs) (remove_key key info) fit (without-AreOnce key kvs once)
      (remove_key-Has key kvs info word has)
