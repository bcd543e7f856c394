-- ===== src/Info/Pairs.antt =====
-- A list of keys and values, and the string that stands for it.
use mohpc.Base.{
  ℕ, suc, ◌≡◌, refl, sym, ap, ◌∙◌, inl, inr, arith, List, [], ◌∷◌, ◌++◌, append_assoc, Bool, true,
  false, Bool-cases, length, ◌==◌, ◌&&◌, if◌then◌else◌, All,
}
use mohpc.Info.{backslash, char, is_end, word, after_word, entry, same_chars}

abbrev pub Pair : Type 0
Pair = List ℕ × List ℕ

-- The string, without its NUL
abbrev pub print : List Pair → List ℕ
print [] = []
print ((k, v) ∷ kvs) = backslash ∷ k ++ (backslash ∷ v ++ print kvs)

abbrev pub IsWord : List ℕ → Type 0
IsWord w = All (λ c. is_end c ≡ false) w

abbrev pub IsKey : List ℕ → Type 0
IsKey [] = ⊥
IsKey (c ∷ k) = IsWord (c ∷ k)

abbrev pub ArePairs : List Pair → Type 0
ArePairs kvs = All (λ kv. IsKey kv.0 × IsWord kv.1) kvs

abbrev pub same_key : List ℕ → List ℕ → Bool
same_key [] [] = true
same_key [] (d ∷ t) = false
same_key (c ∷ s) [] = false
same_key (c ∷ s) (d ∷ t) = (c == d) && same_key s t

-- Without the first pair of a key; with a pair for it at the end
unfoldable pub without : List ℕ → List Pair → List Pair
without key [] = []
without key (kv ∷ kvs) =
    let later = without key kvs in if same_key kv.0 key then kvs else kv ∷ later

pub key-IsWord : (k : List ℕ) → IsKey k → IsWord k
key-IsWord [] h = tt
key-IsWord (c ∷ k) h = h

pub word-append : (w p : List ℕ) → IsWord w → is_end (char p) ≡ true → word (w ++ p) ≡ w
unfolding word
word-append [] [] h stops = refl
word-append [] (c ∷ p) h stops = rw stops refl
word-append (c ∷ w) p h stops = rw (h.0) (ap (◌∷◌ c) (word-append w p h.1 stops))

pub after_word-append : (w p : List ℕ) → IsWord w → is_end (char p) ≡ true → after_word (w ++ p) ≡ p
unfolding after_word
after_word-append [] [] h stops = refl
after_word-append [] (c ∷ p) h stops = rw stops refl
after_word-append (c ∷ w) p h stops = rw (h.0) (after_word-append w p h.1 stops)

-- The comparison of a key in the buffer with one that is passed
pub same_chars-key :
    (k p key : List ℕ)
    → ((length key == length k) && same_chars (length k) (k ++ p) key) ≡ same_key k key
unfolding same_chars
same_chars-key [] p [] = refl
same_chars-key [] p (d ∷ t) = ground arith
same_chars-key (c ∷ k) p [] = ground arith
same_chars-key (c ∷ k) p (d ∷ t) =
    let ih = same_chars-key k p t in
    let shift : (suc (length t) == suc (length k)) ≡ (length t == length k) = ground arith in
    elim (Bool-cases (c == d)) [
      | inl same ↦ rw (same, shift) ih
      | inr differ ↦ rw differ (ground arith)
    ]

pub print-end :
    (kvs : List Pair) (p : List ℕ) → is_end (char p) ≡ true → is_end (char (print kvs ++ p)) ≡ true
print-end [] p h = h
print-end ((k, v) ∷ kvs) p h = refl

pub print-cons :
    (k v p : List ℕ) (kvs : List Pair)
    → print ((k, v) ∷ kvs) ++ p ≡ backslash ∷ k ++ (backslash ∷ v ++ (print kvs ++ p))
print-cons k v p kvs =
    append_assoc (backslash ∷ k) (backslash ∷ v ++ print kvs) p
    ∙ ap (λ t. backslash ∷ k ++ (backslash ∷ t)) (append_assoc v (print kvs) p)

pub print-append : (ls rs : List Pair) → print (ls ++ rs) ≡ print ls ++ print rs
print-append [] rs = refl
print-append ((k, v) ∷ ls) rs =
    ap (λ t. backslash ∷ k ++ (backslash ∷ v ++ t)) (print-append ls rs)
    ∙ sym (print-cons k v (print rs) ls)

entry-print :
    (k v p : List ℕ)
    → IsWord k
    → IsWord v
    → is_end (char p) ≡ true
    → entry (backslash ∷ k ++ (backslash ∷ v ++ p))
      ≡ record { name = k; name_at = k ++ (backslash ∷ v ++ p); value = v; end_value = p }
unfolding entry
entry-print k v p hk hv stops =
    rw
      (
        word-append k (backslash ∷ v ++ p) hk refl,
        after_word-append k (backslash ∷ v ++ p) hk refl,
        word-append v p hv stops,
        after_word-append v p hv stops,
      )
      refl

pub entry-first :
    (k v p : List ℕ) (kvs : List Pair)
    → IsKey k
    → IsWord v
    → is_end (char p) ≡ true
    → entry (print ((k, v) ∷ kvs) ++ p) ≡ record {
      name = k;
      name_at = k ++ (backslash ∷ v ++ (print kvs ++ p));
      value = v;
      end_value = print kvs ++ p;
    }
entry-first k v p kvs hk hv stops =
    ap entry (print-cons k v p kvs)
    ∙ entry-print k v (print kvs ++ p) (key-IsWord k hk) hv (print-end kvs p stops)
