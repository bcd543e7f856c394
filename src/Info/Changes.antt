-- ===== src/Info/Changes.antt =====
-- Setting and removing a key, on the pairs that the string stands for.
use mohpc.Base.{
  ℕ, zero, suc, ◌-◌, ◌<◌, ◌≡◌, refl, sym, ap, subst, ◌∙◌, inl, inr, arith, List, [], ◌∷◌, ◌++◌,
  append_assoc, true, false, not, Bool-cases, length, length-append, take, ◌==◌, ◌&&◌,
  if◌then◌else◌, Option, none, some,
}
use mohpc.Info.{
  Info, backslash, char, is_end, content, Entry, find_key, cut_out, has_backslash, remove_key,
  set_value_for_key, same_chars,
}
use mohpc.Info.Pairs.{
  Pair, print, IsWord, IsKey, ArePairs, same_key, without, same_chars-key, print-cons, print-append,
  entry-first,
}

-- The loop's body, for what is read at a place
abbrev find_at : ℕ → List ℕ → List ℕ → Entry → Option (List ℕ × List ℕ)
find_at rounds key p e =
    if char p == 0
    then none
    else if (length key == length e.name) && same_chars (length e.name) e.name_at key
    then some (p, e.end_value)
    else find_key rounds key e.end_value

pub find_key-print :
    (rounds : ℕ) (key k v p : List ℕ) (kvs : List Pair)
    → IsKey k
    → IsWord v
    → is_end (char p) ≡ true
    → find_key (suc rounds) key (print ((k, v) ∷ kvs) ++ p) ≡ (
        if same_key k key
        then some (print ((k, v) ∷ kvs) ++ p, print kvs ++ p)
        else find_key rounds key (print kvs ++ p))
unfolding find_key
find_key-print rounds key k v p kvs hk hv stops =
    let start = print ((k, v) ∷ kvs) ++ p in
    ap (find_at rounds key start) (entry-first k v p kvs hk hv stops)
    ∙ ap (λ b. if b then some (start, print kvs ++ p) else find_key rounds key (print kvs ++ p))
        (same_chars-key k (backslash ∷ v ++ (print kvs ++ p)) key)

take-front : (a b : List ℕ) → take (length (a ++ b) - length b) (a ++ b) ≡ a
take-front [] b = let none_left : length b - length b ≡ 0 = omega arith in rw none_left refl
take-front (c ∷ a) b =
    let more : suc (length (a ++ b)) - length b ≡ suc (length (a ++ b) - length b) =
      omega (arith, length-append a b) in
    rw more (ap (◌∷◌ c) (take-front a b))

print-before :
    (before kvs : List Pair)
    → print (before ++ kvs) ++ 0 ∷ [] ≡ print before ++ (print kvs ++ 0 ∷ [])
print-before before kvs =
    ap (λ t. t ++ 0 ∷ []) (print-append before kvs)
    ∙ append_assoc (print before) (print kvs) (0 ∷ [])

cut-here :
    (before : List Pair) (k v : List ℕ) (kvs : List Pair)
    → cut_out
        (print (before ++ (k, v) ∷ kvs) ++ 0 ∷ [])
        (some (print ((k, v) ∷ kvs) ++ 0 ∷ [], print kvs ++ 0 ∷ []))
      ≡ print (before ++ kvs) ++ 0 ∷ []
cut-here before k v kvs =
    ap (λ buffer. cut_out buffer (some (print ((k, v) ∷ kvs) ++ 0 ∷ [], print kvs ++ 0 ∷ [])))
      (print-before before ((k, v) ∷ kvs))
    ∙ ap (λ t. t ++ (print kvs ++ 0 ∷ []))
        (take-front (print before) (print ((k, v) ∷ kvs) ++ 0 ∷ []))
    ∙ sym (print-before before kvs)

cut_out-without :
    (rounds : ℕ) (key : List ℕ) (before kvs : List Pair)
    → length kvs < rounds
    → ArePairs kvs
    → cut_out (print (before ++ kvs) ++ 0 ∷ []) (find_key rounds key (print kvs ++ 0 ∷ []))
      ≡ print (before ++ without key kvs) ++ 0 ∷ []
unfolding without find_key
cut_out-without zero key before kvs l all = absurd (omega arith)
cut_out-without (suc rounds) key before [] l all = refl
cut_out-without (suc rounds) key before ((k, v) ∷ kvs) l all =
    rw (find_key-print rounds key k v (0 ∷ []) kvs all.0.0 all.0.1 refl)
      (elim (Bool-cases (same_key k key)) [
        | inl same ↦ rw same (cut-here before k v kvs)
        | inr differ ↦ rw differ (
            subst
              (λ pairs.
                cut_out (print pairs ++ 0 ∷ []) (find_key rounds key (print kvs ++ 0 ∷ []))
                ≡ print (before ++ (k, v) ∷ without key kvs) ++ 0 ∷ [])
              (append_assoc before ((k, v) ∷ []) kvs)
              (cut_out-without rounds key (before ++ (k, v) ∷ []) kvs (omega arith) all.1
                ∙ ap (λ pairs. print pairs ++ 0 ∷ [])
                    (append_assoc before ((k, v) ∷ []) (without key kvs))))
      ])

-- The info has these pairs.
abbrev pub Shows : List Pair → Option (List ℕ) → Type 0
Shows kvs none = kvs ≡ []
Shows kvs (some buffer) = buffer ≡ print kvs ++ 0 ∷ []

pub record Has (kvs : List Pair) (info : Info) : Type 0 where
  pub shows : Shows kvs info.key_buffer
  pub pairs : ArePairs kvs

pub print-longer : (kvs : List Pair) → length kvs < length (print kvs ++ 0 ∷ [])
print-longer [] = omega arith
print-longer ((k, v) ∷ kvs) = omega (
  arith,
  print-longer kvs,
  length-append k (backslash ∷ v ++ print kvs),
  length-append v (print kvs),
  length-append (backslash ∷ k ++ (backslash ∷ v ++ print kvs)) (0 ∷ []),
  length-append (print kvs) (0 ∷ []),
)

word-has_backslash : (w : List ℕ) → IsWord w → has_backslash w ≡ false
word-has_backslash [] h = refl
word-has_backslash (c ∷ w) h = ground (arith, h.0, word-has_backslash w h.1)

without-ArePairs : (key : List ℕ) (kvs : List Pair) → ArePairs kvs → ArePairs (without key kvs)
unfolding without
without-ArePairs key [] all = tt
without-ArePairs key (kv ∷ kvs) all = elim (Bool-cases (same_key kv.0 key)) [
  | inl same ↦ rw same all.1
  | inr differ ↦ rw differ (all.0, without-ArePairs key kvs all.1)
]

removed-Shows :
    (key : List ℕ) (kvs : List Pair) (buffer : Option (List ℕ)) (alloced : ℕ)
    → has_backslash key ≡ false
    → ArePairs kvs
    → Shows kvs buffer
    → Shows
        (without key kvs)
        (remove_key key (record { key_buffer = buffer; alloced = alloced })).key_buffer
unfolding remove_key without
removed-Shows key [] none a plain all shows = refl
removed-Shows key (kv ∷ kvs) none a plain all shows = absurd (grind arith)
removed-Shows key kvs (some buffer) a plain all shows =
    rw (plain, shows)
      (cut_out-without (length (print kvs ++ 0 ∷ [])) key [] kvs (print-longer kvs) all)

pub remove_key-Has :
    (key : List ℕ) (kvs : List Pair) (info : Info)
    → IsWord key
    → Has kvs info
    → Has (without key kvs) (remove_key key info)
remove_key-Has key kvs info word has = record {
  shows =
      removed-Shows key kvs info.key_buffer info.alloced (word-has_backslash key word) has.pairs
        has.shows;
  pairs = without-ArePairs key kvs has.pairs;
}

text_without_nul :
    (text : List ℕ)
    → (let size = length (text ++ 0 ∷ []) in
        take (if not (size == 0) then size - 1 else 0) (text ++ 0 ∷ []))
      ≡ text
text_without_nul text =
    let size = length (text ++ 0 ∷ []) in
    let count : (if not (size == 0) then size - 1 else 0) ≡ size - 1 =
      ground (arith, length-append text (0 ∷ [])) in
    ap (λ n. take n (text ++ 0 ∷ [])) count ∙ take-front text (0 ∷ [])

no_nul :
    (kvs : List Pair) (buffer : Option (List ℕ))
    → Shows kvs buffer
    → (let size = length (content buffer) in
        take (if not (size == 0) then size - 1 else 0) (content buffer))
      ≡ print kvs
no_nul [] none shows = refl
no_nul (kv ∷ kvs) none shows = absurd (grind arith)
no_nul kvs (some buffer) shows = rw shows (text_without_nul (print kvs))

pairs-snoc :
    (kvs : List Pair) (k v : List ℕ)
    → ArePairs kvs
    → IsKey k
    → IsWord v
    → ArePairs (kvs ++ (k, v) ∷ [])
pairs-snoc [] k v all hk hv = ((hk, hv), tt)
pairs-snoc (kv ∷ kvs) k v all hk hv = (all.0, pairs-snoc kvs k v all.1 hk hv)

pub set_value_for_key-Has :
    (key value : List ℕ) (kvs : List Pair) (info : Info)
    → IsKey key
    → IsWord value
    → Has kvs info
    → Has (without key kvs ++ (key, value) ∷ []) (set_value_for_key key value info)
unfolding set_value_for_key
set_value_for_key-Has [] value kvs info hk hv has = absurd hk
set_value_for_key-Has (c ∷ key) value kvs info hk hv has =
    let removed = remove_key-Has (c ∷ key) kvs info hk has in
    record {
      shows =
          ap (λ t. t ++ (backslash ∷ (c ∷ key) ++ (backslash ∷ value ++ 0 ∷ [])))
            (no_nul (without (c ∷ key) kvs) (remove_key (c ∷ key) info).key_buffer removed.shows)
          ∙ ap (λ t. print (without (c ∷ key) kvs) ++ t)
              (sym (print-cons (c ∷ key) value (0 ∷ []) []))
          ∙ sym (print-before (without (c ∷ key) kvs) ((c ∷ key, value) ∷ []));
      pairs = pairs-snoc (without (c ∷ key) kvs) (c ∷ key) value removed.pairs hk hv;
    }
