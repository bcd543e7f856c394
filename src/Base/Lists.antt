-- ===== src/Base/Lists.antt =====
-- Lists measured and indexed by native numbers, under the library's names; ranges of bytes.
use Prim.Native.Nat.{ℕ, zero, suc, ◌+◌, ◌-◌, ◌≤◌, ◌<◌, min}
use mathlib.Core.Path.{◌≡◌, refl, ap}
use mathlib.Core.Logic.{◌≢◌}
use mathlib.Core.List.{List, [], ◌∷◌, ◌++◌}
use mathlib.Core.Option.{Option, none, some}
use native.Mathlib.Omega.{arith}

module _ {ℓ} {A : Type ℓ} where
  abbrev pub length : List A → ℕ
  length [] = 0
  length (x ∷ xs) = suc (length xs)

  abbrev pub get_elem? : List A → ℕ → Option A
  get_elem? [] i = none
  get_elem? (x ∷ xs) zero = some x
  get_elem? (x ∷ xs) (suc i) = get_elem? xs i

  abbrev pub get_or : List A → ℕ → A → A
  get_or [] i d = d
  get_or (x ∷ xs) zero d = x
  get_or (x ∷ xs) (suc i) d = get_or xs i d

  -- A write out of bounds changes nothing.
  abbrev pub set : List A → ℕ → A → List A
  set [] i v = []
  set (x ∷ xs) zero v = v ∷ xs
  set (x ∷ xs) (suc i) v = x ∷ set xs i v

  abbrev pub take : ℕ → List A → List A
  take zero xs = []
  take (suc n) [] = []
  take (suc n) (x ∷ xs) = x ∷ take n xs

  abbrev pub drop : ℕ → List A → List A
  drop zero xs = xs
  drop (suc n) [] = []
  drop (suc n) (x ∷ xs) = drop n xs

  abbrev pub replicate : ℕ → A → List A
  replicate zero a = []
  replicate (suc n) a = a ∷ replicate n a

  abbrev pub All {κ} : (A → Type κ) → List A → Type κ
  All P [] = Unit {κ}
  All P (x ∷ xs) = P x × All P xs

module _ {ℓ} {A : Type ℓ} where
  -- `n` elements from index `i` on.
  abbrev pub slice : ℕ → ℕ → List A → List A
  slice i n xs = take n (drop i xs)

  -- `bs` written over `xs` from index `i` on.
  abbrev pub splice : ℕ → List A → List A → List A
  splice zero [] xs = xs
  splice zero (b ∷ bs) [] = []
  splice zero (b ∷ bs) (x ∷ xs) = b ∷ splice zero bs xs
  splice (suc i) bs [] = []
  splice (suc i) bs (x ∷ xs) = x ∷ splice i bs xs

  -- `bs` written from index `i` on, over what is there and past its end.
  abbrev pub overwrite : ℕ → List A → List A → List A
  overwrite zero [] xs = xs
  overwrite zero (b ∷ bs) [] = b ∷ bs
  overwrite zero (b ∷ bs) (x ∷ xs) = b ∷ overwrite zero bs xs
  overwrite (suc i) bs [] = bs
  overwrite (suc i) bs (x ∷ xs) = x ∷ overwrite i bs xs

  pub length-append : (xs ys : List A) → length (xs ++ ys) ≡ length xs + length ys
  length-append [] ys = omega arith
  length-append (x ∷ xs) ys = omega (arith, length-append xs ys)

  pub length-set : (xs : List A) (i : ℕ) (v : A) → length (set xs i v) ≡ length xs
  length-set [] i v = refl
  length-set (x ∷ xs) zero v = refl
  length-set (x ∷ xs) (suc i) v = ap suc (length-set xs i v)

  pub length-take : (n : ℕ) (xs : List A) → length (take n xs) ≡ min n (length xs)
  length-take zero xs = omega arith
  length-take (suc n) [] = omega arith
  length-take (suc n) (x ∷ xs) = omega (arith, length-take n xs)

  pub length-drop : (n : ℕ) (xs : List A) → length (drop n xs) ≡ length xs - n
  length-drop zero xs = omega arith
  length-drop (suc n) [] = omega arith
  length-drop (suc n) (x ∷ xs) = omega (arith, length-drop n xs)

  pub length-splice : (i : ℕ) (bs xs : List A) → length (splice i bs xs) ≡ length xs
  length-splice zero [] xs = refl
  length-splice zero (b ∷ bs) [] = refl
  length-splice zero (b ∷ bs) (x ∷ xs) = ap suc (length-splice zero bs xs)
  length-splice (suc i) bs [] = refl
  length-splice (suc i) bs (x ∷ xs) = ap suc (length-splice i bs xs)

  pub length-replicate : (n : ℕ) (a : A) → length (replicate n a) ≡ n
  length-replicate zero a = refl
  length-replicate (suc n) a = ap suc (length-replicate n a)

  pub take_none : (n : ℕ) → ◌≡◌ {A = List A} (take n []) []
  take_none zero = refl
  take_none (suc n) = refl

  pub drop_none : (n : ℕ) → ◌≡◌ {A = List A} (drop n []) []
  drop_none zero = refl
  drop_none (suc n) = refl

  pub take_of_length_le : (n : ℕ) (xs : List A) → length xs ≤ n → take n xs ≡ xs
  take_of_length_le zero [] h = refl
  take_of_length_le zero (x ∷ xs) h = absurd (omega arith)
  take_of_length_le (suc n) [] h = refl
  take_of_length_le (suc n) (x ∷ xs) h = ap (◌∷◌ x) (take_of_length_le n xs (omega arith))

  pub take-append-drop : (n : ℕ) (xs : List A) → take n xs ++ drop n xs ≡ xs
  take-append-drop zero xs = refl
  take-append-drop (suc n) [] = refl
  take-append-drop (suc n) (x ∷ xs) = ap (◌∷◌ x) (take-append-drop n xs)

  -- What was written is read back.
  pub slice-splice :
      (i : ℕ) (bs xs : List A)
      → i + length bs ≤ length xs
      → slice i (length bs) (splice i bs xs) ≡ bs
  slice-splice zero [] xs h = refl
  slice-splice zero (b ∷ bs) [] h = absurd (omega arith)
  slice-splice zero (b ∷ bs) (x ∷ xs) h = ap (◌∷◌ b) (slice-splice zero bs xs (omega arith))
  slice-splice (suc i) bs [] h = absurd (omega arith)
  slice-splice (suc i) bs (x ∷ xs) h = slice-splice i bs xs (omega arith)

  -- A prefix that holds the range is written like the whole.
  pub take-splice :
      (n i : ℕ) (bs xs : List A)
      → i + length bs ≤ n
      → take n (splice i bs xs) ≡ splice i bs (take n xs)
  take-splice zero zero [] xs h = refl
  take-splice zero zero (b ∷ bs) xs h = absurd (omega arith)
  take-splice zero (suc i) bs xs h = absurd (omega arith)
  take-splice (suc n) zero [] xs h = refl
  take-splice (suc n) zero (b ∷ bs) [] h = refl
  take-splice (suc n) zero (b ∷ bs) (x ∷ xs) h = ap (◌∷◌ b) (take-splice n zero bs xs (omega arith))
  take-splice (suc n) (suc i) bs [] h = refl
  take-splice (suc n) (suc i) bs (x ∷ xs) h = ap (◌∷◌ x) (take-splice n i bs xs (omega arith))

  pub slice_one : (i : ℕ) (xs : List A) (d : A) → i < length xs → slice i 1 xs ≡ get_or xs i d ∷ []
  slice_one i [] d h = absurd (omega arith)
  slice_one zero (x ∷ xs) d h = refl
  slice_one (suc i) (x ∷ xs) d h = slice_one i xs d (omega arith)

  pub splice_one : (i : ℕ) (xs : List A) (v : A) → splice i (v ∷ []) xs ≡ set xs i v
  splice_one zero [] v = refl
  splice_one zero (x ∷ xs) v = refl
  splice_one (suc i) [] v = refl
  splice_one (suc i) (x ∷ xs) v = ap (◌∷◌ x) (splice_one i xs v)

  pub drop_of_lt :
      (i : ℕ) (xs : List A) (d : A) → i < length xs → drop i xs ≡ get_or xs i d ∷ drop (suc i) xs
  drop_of_lt i [] d h = absurd (omega arith)
  drop_of_lt zero (x ∷ xs) d h = refl
  drop_of_lt (suc i) (x ∷ xs) d h = drop_of_lt i xs d (omega arith)

module _ {ℓ} {A : Type ℓ} where
  pub get_or-set_self :
      (xs : List A) (i : ℕ) (v d : A) → i < length xs → get_or (set xs i v) i d ≡ v
  get_or-set_self [] i v d h = absurd (omega arith)
  get_or-set_self (x ∷ xs) zero v d h = refl
  get_or-set_self (x ∷ xs) (suc i) v d h = get_or-set_self xs i v d (omega arith)

  pub get_or-set_ne :
      (xs : List A) (i j : ℕ) (v d : A) → i ≢ j → get_or (set xs i v) j d ≡ get_or xs j d
  get_or-set_ne [] i j v d h = refl
  get_or-set_ne (x ∷ xs) zero zero v d h = absurd (h refl)
  get_or-set_ne (x ∷ xs) zero (suc j) v d h = refl
  get_or-set_ne (x ∷ xs) (suc i) zero v d h = refl
  get_or-set_ne (x ∷ xs) (suc i) (suc j) v d h = get_or-set_ne xs i j v d (λ e. h (ap suc e))
