-- ===== src/Huffman/Places.antt =====
-- Where bits stand when buffers are put behind one another or moved.
use mohpc.Base.{
  ℕ, zero, suc, ◌+◌, ◌-◌, ◌*◌, ◌/◌, ◌%◌, ◌≤◌, ◌<◌, ◌≡◌, refl, sym, ap, subst, ◌∙◌, inl, inr, arith,
  ltb, Bool-cases, append_assoc, take, take-append-drop, List, [], ◌∷◌, ◌++◌, get_or, length, drop,
  replicate,
}
use mohpc.Huffman.{bit_at}
use mohpc.Huffman.Bits.{Holds}

pub get_or_front : (xs ys : List ℕ) (i : ℕ) → i < length xs → get_or (xs ++ ys) i 0 ≡ get_or xs i 0
get_or_front [] ys i h = absurd (omega arith)
get_or_front (x ∷ xs) ys zero h = refl
get_or_front (x ∷ xs) ys (suc i) h = get_or_front xs ys i (omega arith)

pub get_or_behind :
    (xs ys : List ℕ) (i j : ℕ) → j ≡ length xs + i → get_or (xs ++ ys) j 0 ≡ get_or ys i 0
get_or_behind [] ys i j e = ap (λ (x : ℕ). get_or ys x 0) (omega arith)
get_or_behind (x ∷ xs) ys i zero e = absurd (omega arith)
get_or_behind (x ∷ xs) ys i (suc j) e = get_or_behind xs ys i j (omega arith)

pub get_or-drop : (n i j : ℕ) (xs : List ℕ) → j ≡ n + i → get_or (drop n xs) i 0 ≡ get_or xs j 0
get_or-drop zero i j xs e = ap (λ (x : ℕ). get_or xs x 0) (omega arith)
get_or-drop (suc n) i j [] e = refl
get_or-drop (suc n) i zero (x ∷ xs) e = absurd (omega arith)
get_or-drop (suc n) i (suc j) (x ∷ xs) e = get_or-drop n i j xs (omega arith)

pub get_or-replicate : (n i v : ℕ) → get_or (replicate n v) i v ≡ v
get_or-replicate zero i v = refl
get_or-replicate (suc n) zero v = refl
get_or-replicate (suc n) (suc i) v = get_or-replicate n i v

pub get_or_past : (xs : List ℕ) (i : ℕ) → length xs ≤ i → get_or xs i 0 ≡ 0
get_or_past [] i h = refl
get_or_past (x ∷ xs) zero h = absurd (omega arith)
get_or_past (x ∷ xs) (suc i) h = get_or_past xs i (omega arith)

-- Equal bytes, equal bits.
pub bit_at_moved :
    (fin out : List ℕ) (base i : ℕ)
    → get_or out (i / 8) 0 ≡ get_or fin (base + i / 8) 0
    → bit_at out i ≡ bit_at fin (8 * base + i)
unfolding bit_at
bit_at_moved fin out base i e =
    let byte : (8 * base + i) / 8 ≡ base + i / 8 = omega arith in
    let place : (8 * base + i) % 8 ≡ i % 8 = omega arith in rw (byte, place, e) refl

pub bit_at_front : (xs ys : List ℕ) (i : ℕ) → i < 8 * length xs → bit_at (xs ++ ys) i ≡ bit_at xs i
unfolding bit_at
bit_at_front xs ys i h = rw (get_or_front xs ys (i / 8) (omega arith)) refl

pub bit_at_behind :
    (xs ys : List ℕ) (i j : ℕ) → j ≡ 8 * length xs + i → bit_at (xs ++ ys) j ≡ bit_at ys i
unfolding bit_at
bit_at_behind xs ys i j e =
    let place : j % 8 ≡ i % 8 = omega arith in
    rw (place, get_or_behind xs ys (i / 8) (j / 8) (omega arith)) refl

-- Bits that another buffer holds at a distance.
pub Holds_moved :
    (fin out : List ℕ) (bits : List ℕ) (i d from end : ℕ)
    → from ≡ d + i
    → i + length bits ≤ end
    → ((k : ℕ) → k < end → bit_at out k ≡ bit_at fin (d + k))
    → Holds fin from bits
    → Holds out i bits
unfolding Holds
Holds_moved fin out [] i d from end e l same h = tt
Holds_moved fin out (v ∷ bits) i d from end e l same (b, h) = (
  same i (omega arith) ∙ ap (bit_at fin) (omega arith) ∙ b,
  Holds_moved fin out bits (suc i) d (suc from) end (omega arith) (omega arith) same h,
)

pub Holds_front :
    (xs ys bits : List ℕ) (i : ℕ)
    → i + length bits ≤ 8 * length xs
    → Holds xs i bits
    → Holds (xs ++ ys) i bits
unfolding Holds
Holds_front xs ys [] i l h = tt
Holds_front xs ys (v ∷ bits) i l (b, h) =
    (bit_at_front xs ys i (omega arith) ∙ b, Holds_front xs ys bits (suc i) (omega arith) h)

pub Holds_behind :
    (xs ys bits : List ℕ) (i j : ℕ)
    → j ≡ 8 * length xs + i
    → Holds ys i bits
    → Holds (xs ++ ys) j bits
unfolding Holds
Holds_behind xs ys [] i j e h = tt
Holds_behind xs ys (v ∷ bits) i j e (b, h) =
    (bit_at_behind xs ys i j e ∙ b, Holds_behind xs ys bits (suc i) (suc j) (omega arith) h)

pub Holds-append :
    (fin xs ys : List ℕ) (i j : ℕ)
    → j ≡ i + length xs
    → Holds fin i xs
    → Holds fin j ys
    → Holds fin i (xs ++ ys)
unfolding Holds
Holds-append fin [] ys i j e h k = subst (λ (x : ℕ). Holds fin x ys) (omega arith) k
Holds-append fin (x ∷ xs) ys i j e (b, h) k =
    (b, Holds-append fin xs ys (suc i) j (omega arith) h k)

pub Holds_split :
    (fin xs ys : List ℕ) (i j : ℕ)
    → j ≡ i + length xs
    → Holds fin i (xs ++ ys)
    → Holds fin i xs × Holds fin j ys
unfolding Holds
Holds_split fin [] ys i j e h = (tt, subst (λ (x : ℕ). Holds fin x ys) (omega arith) h)
Holds_split fin (x ∷ xs) ys i j e (b, h) =
    let (front, behind) = Holds_split fin xs ys (suc i) j (omega arith) h in ((b, front), behind)

-- A buffer that keeps its first bits keeps them behind another.
pub kept_behind :
    (c fin out : List ℕ) (n k : ℕ)
    → k < 8 * length c + n
    → ((i : ℕ) → i < n → bit_at out i ≡ bit_at fin i)
    → bit_at (c ++ out) k ≡ bit_at (c ++ fin) k
kept_behind c fin out n k h same = elim (Bool-cases (ltb k (8 * length c))) [
  | inl e ↦
      let l : k < 8 * length c = ground arith in
      bit_at_front c out k l ∙ sym (bit_at_front c fin k l)
  | inr e ↦
      let i : ℕ = k - 8 * length c in
      let p : k ≡ 8 * length c + i = ground arith in
      bit_at_behind c out i k p ∙ same i (omega arith) ∙ sym (bit_at_behind c fin i k p)
]

-- The front of a buffer moved behind what came before it.
pub append-take-drop : (c t z : List ℕ) (n : ℕ) → (c ++ take n t) ++ (drop n t ++ z) ≡ (c ++ t) ++ z
append-take-drop c t z n =
    append_assoc c (take n t) (drop n t ++ z)
    ∙ ap (◌++◌ c) (
        sym (append_assoc (take n t) (drop n t) z)
        ∙ ap (λ (x : List ℕ). x ++ z) (take-append-drop n t))
    ∙ sym (append_assoc c t z)
