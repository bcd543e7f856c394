-- ===== src/Info/RoundTrip.antt =====
-- What was set is read.
use mohpc.Base.{
  ℕ, ◌≡◌, refl, sym, ap, subst, ◌∙◌, inl, inr, arith, List, [], ◌∷◌, ◌++◌, true, false, Bool-cases,
  ◌==◌, if◌then◌else◌, Option, none, some,
}
use mohpc.Info.{Info, content, set_value_for_key, read_only_value}
use mohpc.Info.Pairs.{Pair, IsWord, IsKey, ArePairs, same_key, without}
use mohpc.Info.Changes.{Has, Shows, set_value_for_key-Has}
use mohpc.Info.Lookup.{lookup, read_only_value-lookup}
use mohpc.Info.Runs.{has_key, AreOnce, same_key-equal, without-gone}

same_key_refl : (s : List ℕ) → same_key s s ≡ true
same_key_refl [] = refl
same_key_refl (c ∷ s) = let same : (c == c) ≡ true = ground arith in rw same (same_key_refl s)

lookup-last :
    (key value : List ℕ) (kvs : List Pair)
    → has_key key kvs ≡ false
    → lookup key (kvs ++ (key, value) ∷ []) ≡ value
lookup-last key value [] h = rw (same_key_refl key) refl
lookup-last key value ((k, v) ∷ kvs) h =
    let here : same_key k key ≡ false = ground (arith, h) in
    let rest : has_key key kvs ≡ false = ground (arith, h) in
    rw here (lookup-last key value kvs rest)

lookup-past :
    (other key value : List ℕ) (kvs : List Pair)
    → same_key key other ≡ false
    → lookup other (kvs ++ (key, value) ∷ []) ≡ lookup other kvs
lookup-past other key value [] h = rw h refl
lookup-past other key value ((k, v) ∷ kvs) h =
    ap (λ r. if same_key k other then v else r) (lookup-past other key value kvs h)

lookup-others :
    (other key value : List ℕ) (kvs : List Pair)
    → same_key key other ≡ false
    → lookup other (without key kvs ++ (key, value) ∷ []) ≡ lookup other kvs
unfolding without
lookup-others other key value [] h = rw h refl
lookup-others other key value ((k, v) ∷ kvs) h = elim (Bool-cases (same_key k key)) [
  | inl same ↦
      let differ : same_key k other ≡ false =
        subst (λ x. same_key x other ≡ false) (sym (same_key-equal k key same)) h in
      rw (same, differ) (lookup-past other key value kvs h)
  | inr apart ↦ rw (apart, lookup-others other key value kvs h) refl
]

shown-read :
    (key : List ℕ) (kvs : List Pair) (buffer : Option (List ℕ))
    → ArePairs kvs
    → Shows kvs buffer
    → read_only_value key (content buffer) ≡ lookup key kvs
unfolding read_only_value
shown-read key [] none pairs shows = refl
shown-read key (kv ∷ kvs) none pairs shows = absurd (grind arith)
shown-read key kvs (some buffer) pairs shows = rw shows (read_only_value-lookup key kvs pairs)

-- From an info whose string stands for a list of pairs, no key twice: once a key that is not empty
-- is set to a value, both without NUL and backslash, ReadOnlyInfo finds just the value under the
-- key, and under another key what it found before.
pub read-set :
    (key value other : List ℕ) (kvs : List Pair) (info : Info)
    → IsKey key
    → IsWord value
    → same_key key other ≡ false
    → AreOnce kvs
    → Has kvs info
    → (read_only_value key (content (set_value_for_key key value info).key_buffer) ≡ value)
      × (read_only_value other (content (set_value_for_key key value info).key_buffer)
          ≡ read_only_value other (content info.key_buffer))
read-set key value other kvs info hk hv differ once has =
    let after = set_value_for_key-Has key value kvs info hk hv has in
    let now = set_value_for_key key value info in
    let pairs = without key kvs ++ (key, value) ∷ [] in
    (
      shown-read key pairs now.key_buffer after.pairs after.shows
          ∙ lookup-last key value (without key kvs) (without-gone key kvs once),
      shown-read other pairs now.key_buffer after.pairs after.shows
          ∙ lookup-others other key value kvs differ
          ∙ sym (shown-read other kvs info.key_buffer has.pairs has.shows),
    )
