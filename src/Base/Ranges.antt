-- ===== src/Base/Ranges.antt =====
-- Ranges of a list: reading one, writing one over another, and how they meet.
use Prim.Native.Nat.{ℕ, zero, suc, ◌+◌, ◌≤◌, max}
use mathlib.Core.Path.{◌≡◌, refl, sym, ap, ap₂, ◌∙◌}
use mathlib.Core.List.{List, [], ◌∷◌, ◌++◌}
use native.Mathlib.Omega.{arith}
use mohpc.Base.Lists.{length, take, drop, slice, splice, overwrite, length-take, length-drop}
use mohpc.Base.Lists.{take_none, drop_none}

module _ {ℓ} {A : Type ℓ} where
  overwrite-nil : (bs : List A) → overwrite zero bs [] ≡ bs
  overwrite-nil [] = refl
  overwrite-nil (b ∷ bs) = refl

  pub overwrite_none : (i : ℕ) (xs : List A) → overwrite i [] xs ≡ xs
  overwrite_none zero xs = refl
  overwrite_none (suc i) [] = refl
  overwrite_none (suc i) (x ∷ xs) = ap (◌∷◌ x) (overwrite_none i xs)

  -- A write that may lengthen the prefix.
  pub take-splice-overwrite :
      (m n i : ℕ) (bs xs : List A)
      → i ≤ n
      → i + length bs ≤ length xs
      → m ≡ max n (i + length bs)
      → take m (splice i bs xs) ≡ overwrite i bs (take n xs)
  take-splice-overwrite m n zero [] xs h k e = ap (λ (t : ℕ). take t xs) (omega arith)
  take-splice-overwrite m n zero (b ∷ bs) [] h k e = absurd (omega arith)
  take-splice-overwrite m n (suc i) bs [] h k e = absurd (omega arith)
  take-splice-overwrite m zero (suc i) bs (x ∷ xs) h k e = absurd (omega arith)
  take-splice-overwrite zero zero zero (b ∷ bs) (x ∷ xs) h k e = absurd (omega arith)
  take-splice-overwrite zero (suc n) zero (b ∷ bs) (x ∷ xs) h k e = absurd (omega arith)
  take-splice-overwrite zero (suc n) (suc i) bs (x ∷ xs) h k e = absurd (omega arith)
  take-splice-overwrite (suc m) zero zero (b ∷ bs) (x ∷ xs) h k e = ap (◌∷◌ b) (
      take-splice-overwrite m zero zero bs xs (omega arith) (omega arith) (omega arith)
      ∙ overwrite-nil bs)
  take-splice-overwrite (suc m) (suc n) zero (b ∷ bs) (x ∷ xs) h k e =
      ap (◌∷◌ b) (take-splice-overwrite m n zero bs xs (omega arith) (omega arith) (omega arith))
  take-splice-overwrite (suc m) (suc n) (suc i) bs (x ∷ xs) h k e =
      ap (◌∷◌ x) (take-splice-overwrite m n i bs xs (omega arith) (omega arith) (omega arith))

  -- A range inside a prefix is a range of the whole.
  pub slice-take : (n i k : ℕ) (xs : List A) → i + k ≤ n → slice i k (take n xs) ≡ slice i k xs
  slice-take zero zero zero xs h = refl
  slice-take zero zero (suc k) xs h = absurd (omega arith)
  slice-take zero (suc i) k xs h = absurd (omega arith)
  slice-take (suc n) i k [] h = refl
  slice-take (suc n) zero zero (x ∷ xs) h = refl
  slice-take (suc n) zero (suc k) (x ∷ xs) h = ap (◌∷◌ x) (slice-take n zero k xs (omega arith))
  slice-take (suc n) (suc i) k (x ∷ xs) h = slice-take n i k xs (omega arith)

  pub overwrite_past : (xs bs : List A) → overwrite (length xs) bs xs ≡ xs ++ bs
  overwrite_past [] bs = overwrite-nil bs
  overwrite_past (x ∷ xs) bs = ap (◌∷◌ x) (overwrite_past xs bs)

  -- Two writes one behind the other are one write.
  pub overwrite-append :
      (i j : ℕ) (cs bs xs : List A)
      → i ≤ length xs
      → j ≡ i + length cs
      → overwrite i (cs ++ bs) xs ≡ overwrite j bs (overwrite i cs xs)
  overwrite-append zero j [] bs xs h e =
      let p : 0 ≡ j = omega arith in ap (λ (t : ℕ). overwrite t bs xs) p
  overwrite-append zero j (a ∷ cs) bs [] h e =
      let p : length (a ∷ cs) ≡ j = omega arith in
      sym (overwrite_past (a ∷ cs) bs) ∙ ap (λ (t : ℕ). overwrite t bs (a ∷ cs)) p
  overwrite-append zero zero (a ∷ cs) bs (x ∷ xs) h e = absurd (omega arith)
  overwrite-append zero (suc j) (a ∷ cs) bs (x ∷ xs) h e =
      ap (◌∷◌ a) (overwrite-append zero j cs bs xs (omega arith) (omega arith))
  overwrite-append (suc i) j cs bs [] h e = absurd (omega arith)
  overwrite-append (suc i) zero cs bs (x ∷ xs) h e = absurd (omega arith)
  overwrite-append (suc i) (suc j) cs bs (x ∷ xs) h e =
      ap (◌∷◌ x) (overwrite-append i j cs bs xs (omega arith) (omega arith))

  -- A range is its front and the range behind it.
  pub slice-add :
      (k i j n m : ℕ) (xs : List A)
      → i + (n + m) ≤ length xs
      → k ≡ n + m
      → j ≡ i + n
      → slice i k xs ≡ slice i n xs ++ slice j m xs
  slice-add k zero j zero m xs h e f =
      let p : k ≡ m = omega arith in
      let q : 0 ≡ j = omega arith in ap₂ (λ (a b : ℕ). take a (drop b xs)) p q
  slice-add k zero j (suc n) m [] h e f = absurd (omega arith)
  slice-add zero zero j (suc n) m (x ∷ xs) h e f = absurd (omega arith)
  slice-add (suc k) zero zero (suc n) m (x ∷ xs) h e f = absurd (omega arith)
  slice-add (suc k) zero (suc j) (suc n) m (x ∷ xs) h e f =
      ap (◌∷◌ x) (slice-add k zero j n m xs (omega arith) (omega arith) (omega arith))
  slice-add k (suc i) j n m [] h e f =
      take_none k ∙ sym (ap₂ ◌++◌ (take_none n) (ap (take m) (drop_none j) ∙ take_none m))
  slice-add k (suc i) zero n m (x ∷ xs) h e f = absurd (omega arith)
  slice-add k (suc i) (suc j) n m (x ∷ xs) h e f =
      slice-add k i j n m xs (omega arith) (omega arith) (omega arith)

  pub length-slice : (i n : ℕ) (xs : List A) → i + n ≤ length xs → length (slice i n xs) ≡ n
  length-slice i n xs h = omega (arith, length-take n (drop i xs), length-drop i xs)

  pub slice_all : (ys : List A) → slice 0 (length ys) ys ≡ ys
  slice_all [] = refl
  slice_all (y ∷ ys) = ap (◌∷◌ y) (slice_all ys)

  -- What was written over a list is read back from it.
  pub slice-overwrite :
      (i : ℕ) (bs xs : List A) → i ≤ length xs → slice i (length bs) (overwrite i bs xs) ≡ bs
  slice-overwrite zero [] xs h = refl
  slice-overwrite zero (b ∷ bs) [] h = ap (◌∷◌ b) (slice_all bs)
  slice-overwrite zero (b ∷ bs) (x ∷ xs) h = ap (◌∷◌ b) (slice-overwrite zero bs xs (omega arith))
  slice-overwrite (suc i) bs [] h = absurd (omega arith)
  slice-overwrite (suc i) bs (x ∷ xs) h = slice-overwrite i bs xs (omega arith)

  -- Behind what was written nothing changes.
  pub slice-overwrite_after :
      (i j n : ℕ) (bs xs : List A)
      → j ≡ i + length bs
      → j ≤ length xs
      → slice j n (overwrite i bs xs) ≡ slice j n xs
  slice-overwrite_after zero j n [] xs e h = refl
  slice-overwrite_after zero j n (b ∷ bs) [] e h = absurd (omega arith)
  slice-overwrite_after zero zero n (b ∷ bs) (x ∷ xs) e h = absurd (omega arith)
  slice-overwrite_after zero (suc j) n (b ∷ bs) (x ∷ xs) e h =
      slice-overwrite_after zero j n bs xs (omega arith) (omega arith)
  slice-overwrite_after (suc i) j n bs [] e h = absurd (omega arith)
  slice-overwrite_after (suc i) zero n bs (x ∷ xs) e h = absurd (omega arith)
  slice-overwrite_after (suc i) (suc j) n bs (x ∷ xs) e h =
      slice-overwrite_after i j n bs xs (omega arith) (omega arith)

  pub length-overwrite :
      (i : ℕ) (bs xs : List A)
      → i ≤ length xs
      → length (overwrite i bs xs) ≡ max (length xs) (i + length bs)
  length-overwrite zero [] xs h = omega arith
  length-overwrite zero (b ∷ bs) [] h = omega arith
  length-overwrite zero (b ∷ bs) (x ∷ xs) h =
      omega (arith, length-overwrite zero bs xs (omega arith))
  length-overwrite (suc i) bs [] h = absurd (omega arith)
  length-overwrite (suc i) bs (x ∷ xs) h = omega (arith, length-overwrite i bs xs (omega arith))

  -- Writing back what was there, over any other bytes, restores the list.
  pub overwrite_back :
      (i : ℕ) (bs xs : List A)
      → i + length bs ≤ length xs
      → overwrite i (slice i (length bs) xs) (overwrite i bs xs) ≡ xs
  overwrite_back zero [] xs h = refl
  overwrite_back zero (b ∷ bs) [] h = absurd (omega arith)
  overwrite_back zero (b ∷ bs) (x ∷ xs) h = ap (◌∷◌ x) (overwrite_back zero bs xs (omega arith))
  overwrite_back (suc i) bs [] h = absurd (omega arith)
  overwrite_back (suc i) bs (x ∷ xs) h = ap (◌∷◌ x) (overwrite_back i bs xs (omega arith))
