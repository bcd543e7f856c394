-- ===== src/Info/Iterate.antt =====
-- Going through all the keys.
use mohpc.Base.{
  ℕ, zero, suc, ◌≤◌, ◌≡◌, refl, ap, ◌∙◌, arith, List, [], ◌∷◌, ◌++◌, false, length, ◌==◌,
}
use mohpc.Info.{backslash, next, field, after_field, c_chars, skip_backslashes, shown, iterate}
use mohpc.Info.Pairs.{Pair, print, IsKey, ArePairs, key-IsWord, print-cons}
use mohpc.Info.Fields.{
  text_from, field-slash, after_field-slash, field-value, c_chars-word, value-behind,
}
use mohpc.Info.Changes.{print-longer}

-- The body of the iterator, at a key
abbrev shown_at : ℕ → List ℕ → List Pair
shown_at rounds key_ptr =
    let p2 = next (after_field key_ptr) in
    (c_chars (field key_ptr), c_chars (field p2)) ∷ shown rounds (next (after_field p2))

key-place :
    (k v : List ℕ) (kvs : List Pair)
    → next (text_from ((k, v) ∷ kvs)) ≡ k ++ (backslash ∷ v ++ (print kvs ++ 0 ∷ []))
key-place k v kvs = ap next (print-cons k v (0 ∷ []) kvs)

shown-step :
    (rounds : ℕ) (k p : List ℕ) → IsKey k → shown (suc rounds) (k ++ p) ≡ shown_at rounds (k ++ p)
unfolding shown
shown-step rounds [] p h = absurd h
shown-step rounds (c ∷ k) p h = refl

shown-print :
    (rounds : ℕ) (kvs : List Pair)
    → length kvs ≤ rounds
    → ArePairs kvs
    → shown rounds (next (text_from kvs)) ≡ kvs
unfolding shown
shown-print zero [] l all = refl
shown-print zero (kv ∷ kvs) l all = absurd (omega arith)
shown-print (suc rounds) [] l all = refl
shown-print (suc rounds) ((k, v) ∷ kvs) l all =
    let ((hk, hv), rest) = all in
    let behind = v ++ (print kvs ++ 0 ∷ []) in
    let word = key-IsWord k hk in
    ap (shown (suc rounds)) (key-place k v kvs)
    ∙ shown-step rounds k (backslash ∷ behind) hk
    ∙ rw
        (
          field-slash k behind word,
          after_field-slash k behind word,
          c_chars-word k word,
          field-value v kvs hv,
          value-behind v kvs hv,
          shown-print rounds kvs (omega arith) rest,
        )
        refl

skip-first :
    (k v : List ℕ) (kvs : List Pair)
    → IsKey k
    → skip_backslashes (print ((k, v) ∷ kvs) ++ 0 ∷ []) ≡ next (text_from ((k, v) ∷ kvs))
unfolding skip_backslashes
skip-first [] v kvs h = absurd h
skip-first (c ∷ k) v kvs h =
    let stays : (c == backslash) ≡ false = ground (arith, h.0) in rw stays refl

-- The iterator shows just the pairs of a string that stands for at least one, in their order, keys
-- not empty and no NUL or backslash in any key or value.
pub iterate-print :
    (kv : Pair) (kvs : List Pair)
    → ArePairs (kv ∷ kvs)
    → iterate (print (kv ∷ kvs) ++ 0 ∷ []) ≡ kv ∷ kvs
unfolding iterate
iterate-print (k, v) kvs all =
    let text = print ((k, v) ∷ kvs) ++ 0 ∷ [] in
    ap (shown (length text)) (skip-first k v kvs all.0.0)
    ∙ shown-print (length text) ((k, v) ∷ kvs) (omega (arith, print-longer ((k, v) ∷ kvs))) all
