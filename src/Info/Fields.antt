-- ===== src/Info/Fields.antt =====
-- The parts of a string of keys and values that the reading classes find in it.
use mohpc.Base.{
  ℕ, ◌+◌, ◌≡◌, refl, ap, arith, List, [], ◌∷◌, ◌++◌, false, length, length-append, take,
  take_of_length_le, ◌==◌,
}
use mohpc.Info.{backslash, field, after_field, c_chars}
use mohpc.Info.Pairs.{Pair, print, IsWord}

-- What is left of the string: once the last value is read, its NUL is too.
abbrev pub text_from : List Pair → List ℕ
text_from [] = []
text_from (kv ∷ kvs) = print (kv ∷ kvs) ++ 0 ∷ []

pub field-slash : (w p : List ℕ) → IsWord w → field (w ++ backslash ∷ p) ≡ w
unfolding field
field-slash [] p h = refl
field-slash (c ∷ w) p h =
    let goes : (c == backslash) ≡ false = ground (arith, h.0) in
    rw goes (ap (◌∷◌ c) (field-slash w p h.1))

pub after_field-slash : (w p : List ℕ) → IsWord w → after_field (w ++ backslash ∷ p) ≡ backslash ∷ p
unfolding after_field
after_field-slash [] p h = refl
after_field-slash (c ∷ w) p h =
    let goes : (c == backslash) ≡ false = ground (arith, h.0) in rw goes (after_field-slash w p h.1)

field-nul : (w : List ℕ) → IsWord w → field (w ++ 0 ∷ []) ≡ w ++ 0 ∷ []
unfolding field
field-nul [] h = refl
field-nul (c ∷ w) h =
    let goes : (c == backslash) ≡ false = ground (arith, h.0) in
    rw goes (ap (◌∷◌ c) (field-nul w h.1))

after_field-nul : (w : List ℕ) → IsWord w → after_field (w ++ 0 ∷ []) ≡ []
unfolding after_field
after_field-nul [] h = refl
after_field-nul (c ∷ w) h =
    let goes : (c == backslash) ≡ false = ground (arith, h.0) in rw goes (after_field-nul w h.1)

take-c_chars : (w p : List ℕ) → IsWord w → take (length w) (c_chars (w ++ p)) ≡ w
unfolding c_chars
take-c_chars [] p h = refl
take-c_chars (c ∷ w) p h =
    let goes : (c == 0) ≡ false = ground (arith, h.0) in rw goes (ap (◌∷◌ c) (take-c_chars w p h.1))

pub c_chars-word : (w : List ℕ) → IsWord w → c_chars w ≡ w
unfolding c_chars
c_chars-word [] h = refl
c_chars-word (c ∷ w) h =
    let goes : (c == 0) ≡ false = ground (arith, h.0) in rw goes (ap (◌∷◌ c) (c_chars-word w h.1))

c_chars-nul : (w : List ℕ) → IsWord w → c_chars (w ++ 0 ∷ []) ≡ w
unfolding c_chars
c_chars-nul [] h = refl
c_chars-nul (c ∷ w) h =
    let goes : (c == 0) ≡ false = ground (arith, h.0) in rw goes (ap (◌∷◌ c) (c_chars-nul w h.1))

-- A value is read up to the next key, or with the NUL.
pub value-read :
    (v : List ℕ) (kvs : List Pair)
    → IsWord v
    → take (length (field (v ++ (print kvs ++ 0 ∷ [])))) (c_chars (v ++ (print kvs ++ 0 ∷ []))) ≡ v
value-read v [] h =
    rw (field-nul v h, c_chars-nul v h, length-append v (0 ∷ []))
      (take_of_length_le (length v + 1) v (omega arith))
value-read v ((k, w) ∷ kvs) h =
    let rest = k ++ (backslash ∷ w ++ print kvs) ++ 0 ∷ [] in
    rw (field-slash v rest h) (take-c_chars v (backslash ∷ rest) h)

pub value-behind :
    (v : List ℕ) (kvs : List Pair)
    → IsWord v
    → after_field (v ++ (print kvs ++ 0 ∷ [])) ≡ text_from kvs
value-behind v [] h = after_field-nul v h
value-behind v ((k, w) ∷ kvs) h =
    after_field-slash v (k ++ (backslash ∷ w ++ print kvs) ++ 0 ∷ []) h

pub field-value :
    (v : List ℕ) (kvs : List Pair) → IsWord v → c_chars (field (v ++ (print kvs ++ 0 ∷ []))) ≡ v
field-value v [] h = rw (field-nul v h) (c_chars-nul v h)
field-value v ((k, w) ∷ kvs) h =
    rw (field-slash v (k ++ (backslash ∷ w ++ print kvs) ++ 0 ∷ []) h) (c_chars-word v h)
