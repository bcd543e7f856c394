-- ===== src/Info/Lookup.antt =====
-- Finding the value of a key.
use mohpc.Base.{
  ℕ, zero, suc, ◌≤◌, ◌<◌, ◌≡◌, refl, ap, subst, ◌∙◌, inl, inr, arith, List, [], ◌∷◌, ◌++◌, Bool,
  true, false, not, Bool-cases, length, take, ◌==◌, ◌&&◌, if◌then◌else◌, some,
}
use mohpc.Info.{
  Info, Entry, backslash, char, next, find_value, value_for_key, same_chars, field, after_field,
  c_chars, skip_backslashes, read_value, read_only_value,
}
use mohpc.Info.Pairs.{
  Pair, print, IsWord, IsKey, ArePairs, same_key, key-IsWord, same_chars-key, print-cons,
  entry-first,
}
use mohpc.Info.Fields.{text_from, field-slash, after_field-slash, value-read, value-behind}
use mohpc.Info.Changes.{Has, Shows, print-longer}

-- The value of the first pair with the key; none is an empty one.
abbrev pub lookup : List ℕ → List Pair → List ℕ
lookup key [] = []
lookup key ((k, v) ∷ kvs) = if same_key k key then v else lookup key kvs

-- The body of the loop, behind the backslashes
abbrev read_at : ℕ → List ℕ → List ℕ → List ℕ
read_at rounds key pkey =
    let start_value = next (after_field pkey) in
    if not (length (field pkey) == 0)
      && (length (field pkey) == length key)
      && same_chars (length (field pkey)) pkey key
    then take (length (field start_value)) (c_chars start_value)
    else read_value rounds key (after_field start_value)

skip-key :
    (k v : List ℕ) (kvs : List Pair)
    → IsKey k
    → skip_backslashes (print ((k, v) ∷ kvs) ++ 0 ∷ [])
      ≡ k ++ (backslash ∷ v ++ (print kvs ++ 0 ∷ []))
unfolding skip_backslashes
skip-key [] v kvs h = absurd h
skip-key (c ∷ k) v kvs h =
    let stays : (c == backslash) ≡ false = ground (arith, h.0) in
    rw stays (ap next (print-cons (c ∷ k) v (0 ∷ []) kvs))

key-test :
    (k p key : List ℕ)
    → IsKey k
    → (not (length k == 0) && (length k == length key) && same_chars (length k) (k ++ p) key)
      ≡ same_key k key
key-test [] p key h = absurd h
key-test (c ∷ k) p key h =
    let n = length (c ∷ k) in
    let some_chars : not (n == 0) ≡ true = ground arith in
    let turned : (n == length key) ≡ (length key == n) = ground arith in
    ap (λ b. b && (n == length key) && same_chars n (c ∷ k ++ p) key) some_chars
    ∙ ap (λ b. b && same_chars n (c ∷ k ++ p) key) turned
    ∙ same_chars-key (c ∷ k) p key

read_value-print :
    (rounds : ℕ) (key : List ℕ) (kvs : List Pair)
    → length kvs ≤ rounds
    → ArePairs kvs
    → read_value rounds key (text_from kvs) ≡ lookup key kvs
unfolding read_value
read_value-print zero key [] l all = refl
read_value-print zero key (kv ∷ kvs) l all = absurd (omega arith)
read_value-print (suc rounds) key [] l all = refl
read_value-print (suc rounds) key ((k, v) ∷ kvs) l all =
    let ((hk, hv), rest) = all in
    let behind = v ++ (print kvs ++ 0 ∷ []) in
    let word = key-IsWord k hk in
    ap (read_at rounds key) (skip-key k v kvs hk)
    ∙ rw
        (
          field-slash k behind word,
          after_field-slash k behind word,
          key-test k (backslash ∷ behind) key hk,
          value-read v kvs hv,
          value-behind v kvs hv,
          read_value-print rounds key kvs (omega arith) rest,
        )
        refl

pub read_only_value-lookup :
    (key : List ℕ) (kvs : List Pair)
    → ArePairs kvs
    → read_only_value key (print kvs ++ 0 ∷ []) ≡ lookup key kvs
unfolding read_only_value
read_only_value-lookup key [] all = ground arith
read_only_value-lookup key (kv ∷ kvs) all =
    read_value-print (length (text_from (kv ∷ kvs))) key (kv ∷ kvs)
      (omega (arith, print-longer (kv ∷ kvs))) all

-- Whether a stored key is all of a string or the start of it, and the first value of such a key
abbrev pub starts : List ℕ → List ℕ → Bool
starts [] t = true
starts (c ∷ s) [] = false
starts (c ∷ s) (d ∷ t) = (c == d) && starts s t

abbrev pub lookup_start : List ℕ → List Pair → List ℕ
lookup_start key [] = []
lookup_start key ((k, v) ∷ kvs) = if starts k key then v else lookup_start key kvs

same_chars-start : (k p key : List ℕ) → IsWord k → same_chars (length k) (k ++ p) key ≡ starts k key
unfolding same_chars
same_chars-start [] p key h = refl
same_chars-start (c ∷ k) p [] h = let nul : (c == 0) ≡ false = ground (arith, h.0) in rw nul refl
same_chars-start (c ∷ k) p (d ∷ t) h = elim (Bool-cases (c == d)) [
  | inl same ↦ rw same (same_chars-start k p t h.1)
  | inr differ ↦ rw differ refl
]

abbrev value_at : ℕ → List ℕ → List ℕ → Entry → List ℕ
value_at rounds key p e =
    if char p == 0
    then []
    else if same_chars (length e.name) e.name_at key
    then e.value
    else find_value rounds key e.end_value

find_value-print :
    (rounds : ℕ) (key : List ℕ) (kvs : List Pair)
    → length kvs < rounds
    → ArePairs kvs
    → find_value rounds key (print kvs ++ 0 ∷ []) ≡ lookup_start key kvs
unfolding find_value
find_value-print zero key kvs l all = absurd (omega arith)
find_value-print (suc rounds) key [] l all = refl
find_value-print (suc rounds) key ((k, v) ∷ kvs) l all =
    let ((hk, hv), rest) = all in
    let start = print ((k, v) ∷ kvs) ++ 0 ∷ [] in
    ap (value_at rounds key start) (entry-first k v (0 ∷ []) kvs hk hv refl)
    ∙ ap (λ b. if b then v else find_value rounds key (print kvs ++ 0 ∷ []))
        (same_chars-start k (backslash ∷ v ++ (print kvs ++ 0 ∷ [])) key (key-IsWord k hk))
    ∙ ap (λ r. if starts k key then v else r) (find_value-print rounds key kvs (omega arith) rest)

-- Info::ValueForKey compares only as many characters as the stored key has: of an info with a
-- buffer that stands for a list of pairs, it gives the value of the first key that the asked one
-- starts with, whether or not it is the asked one.
pub value_for_key-start :
    (key buffer : List ℕ) (kvs : List Pair) (info : Info)
    → info.key_buffer ≡ some buffer
    → Has kvs info
    → value_for_key key info ≡ some (lookup_start key kvs)
unfolding value_for_key
value_for_key-start key buffer kvs info there has =
    let text : buffer ≡ print kvs ++ 0 ∷ [] = subst (Shows kvs) there has.shows in
    rw (there, text)
      (ap some
        (find_value-print (length (print kvs ++ 0 ∷ [])) key kvs (print-longer kvs) has.pairs))
