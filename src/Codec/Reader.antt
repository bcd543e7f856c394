-- ===== src/Codec/Reader.antt =====
-- What `ReadBits` keeps: the buffer is a window of the bytes of the stream, with zeros behind their end.
use mohpc.Base.{
  ℕ, zero, suc, ◌+◌, ◌-◌, ◌≤◌, ◌<◌, min, ◌≡◌, refl, sym, ap, ◌∙◌, inl, inr, arith, List, [], ◌∷◌,
  ◌++◌, true, Bool-cases, length, length-append, length-take, length-drop, length-replicate, take,
  drop, slice, replicate, get_or, ltb,
}
use mohpc.Codec.{all_zero}
use mohpc.Huffman.Places.{get_or_front, get_or_behind, get_or-drop, get_or-replicate, get_or_past}

pub get_or-take : (n i : ℕ) (xs : List ℕ) → i < n → get_or (take n xs) i 0 ≡ get_or xs i 0
get_or-take zero i xs h = absurd (omega arith)
get_or-take (suc n) i [] h = refl
get_or-take (suc n) zero (x ∷ xs) h = refl
get_or-take (suc n) (suc i) (x ∷ xs) h = get_or-take n i xs (omega arith)

pub all_zero_lem : (xs : List ℕ) (i : ℕ) → all_zero xs ≡ true → get_or xs i 0 ≡ 0
unfolding all_zero
all_zero_lem [] i h = refl
all_zero_lem (x ∷ xs) zero h = ground (arith, h)
all_zero_lem (x ∷ xs) (suc i) h = all_zero_lem xs i (ground (arith, h))

module _ (all : List ℕ) where
  -- The buffer is the 32 bytes from `base` on, with zeros behind the end.
  unfoldable pub IsWindow : ℕ → List ℕ → Type 0
  IsWindow base bytes = (j : ℕ) → j < 32 → get_or bytes j 0 ≡ get_or all (base + j) 0

  unfoldable pub refilled : ℕ → List ℕ → ℕ → ℕ → List ℕ
  refilled n bytes pos r = drop n bytes ++ (slice pos r all ++ replicate (n - r) 0)

  module _ (base n r : ℕ) (bytes : List ℕ) (size : length bytes ≡ 32) (h : n ≤ 32)
      (rest : r ≡ min n (length all - min (length all) (base + 32))) where
    abbrev pos : ℕ
    pos = min (length all) (base + 32)

    pub length-next : length (slice pos r all) ≡ r
    length-next = omega (arith, length-take r (drop pos all), length-drop pos all, rest)

    pub length-refilled : length (refilled n bytes pos r) ≡ 32
    unfolding refilled
    length-refilled = omega (
      arith,
      length-append (drop n bytes) (slice pos r all ++ replicate (n - r) 0),
      length-append (slice pos r all) (replicate (n - r) 0),
      length-next,
      length-drop n bytes,
      length-replicate {A = ℕ} (n - r) 0,
      size,
      rest,
    )

    next_byte :
        (i : ℕ)
        → i < n
        → get_or (slice pos r all ++ replicate (n - r) 0) i 0 ≡ get_or all (base + 32 + i) 0
    next_byte i l = elim (Bool-cases (ltb i r)) [
      | inl e ↦
          let inside : i < r = ground arith in
          get_or_front (slice pos r all) (replicate (n - r) 0) i
            (omega (arith, length-next, inside))
          ∙ get_or-take r i (drop pos all) inside
          ∙ get_or-drop pos i (base + 32 + i) all (omega (arith, rest, inside))
      | inr e ↦
          let outside : r ≤ i = ground arith in
          get_or_behind (slice pos r all) (replicate (n - r) 0) (i - r) i
            (omega (arith, length-next, outside))
          ∙ get_or-replicate (n - r) (i - r) 0
          ∙ sym (get_or_past all (base + 32 + i) (omega (arith, rest, outside, l)))
    ]

    pub refilled-IsWindow : IsWindow base bytes → IsWindow (base + n) (refilled n bytes pos r)
    unfolding IsWindow refilled
    refilled-IsWindow same j l = elim (Bool-cases (ltb j (32 - n))) [
      | inl e ↦
          let front : j < 32 - n = ground arith in
          get_or_front (drop n bytes) (slice pos r all ++ replicate (n - r) 0) j
            (omega (arith, length-drop n bytes, size, front))
          ∙ get_or-drop n j (n + j) bytes refl
          ∙ same (n + j) (omega (arith, front))
          ∙ ap (λ (x : ℕ). get_or all x 0) (omega arith)
      | inr e ↦
          let behind : 32 - n ≤ j = ground arith in
          get_or_behind (drop n bytes) (slice pos r all ++ replicate (n - r) 0) (j - (32 - n)) j
            (omega (arith, length-drop n bytes, size, behind))
          ∙ next_byte (j - (32 - n)) (omega (arith, behind, l, h))
          ∙ ap (λ (x : ℕ). get_or all x 0) (omega (arith, behind, h))
    ]
