-- ===== src/Dispatcher/Links.antt =====
-- Segments of a doubly linked list in memory.
use mohpc.Base.{
  ℕ, ◌≡◌, refl, sym, ap, ◌∙◌, arith, List, [], ◌∷◌, ◌++◌, true, false, ◌==◌, All, Option, none,
  some,
}
use mohpc.Dispatcher.{Node, Memory, update, update_through, set_prev, set_next}

-- The first handler, or what comes behind; the last one, or what stands before.
abbrev pub first : List ℕ → Option ℕ → Option ℕ
first [] after = after
first (x ∷ xs) after = some x

abbrev pub final : Option ℕ → List ℕ → Option ℕ
final before [] = before
final before (x ∷ xs) = final (some x) xs

abbrev pub Seg : Memory → Option ℕ → List ℕ → Option ℕ → Type 0
Seg nodes before [] after = Unit {0}
Seg nodes before (x ∷ xs) after =
    ((nodes x).prev ≡ before) × ((nodes x).next ≡ first xs after) × Seg nodes (some x) xs after

abbrev pub Apart : ℕ → List ℕ → Type 0
Apart h xs = All (λ x. (x == h) ≡ false) xs

abbrev pub AreDistinct : List ℕ → Type 0
AreDistinct [] = Unit {0}
AreDistinct (x ∷ xs) = Apart x xs × AreDistinct xs

-- No handler of the list is the one a pointer points to.
abbrev pub Avoids : Option ℕ → List ℕ → Type 0
Avoids none xs = Unit {0}
Avoids (some h) xs = Apart h xs

pub Seg-update :
    (h : ℕ) (f : Node → Node) (nodes : Memory) (before after : Option ℕ) (xs : List ℕ)
    → Apart h xs
    → Seg nodes before xs after
    → Seg (update h f nodes) before xs after
Seg-update h f nodes before after [] apart seg = tt
Seg-update h f nodes before after (x ∷ xs) apart seg =
    rw (apart.0) (seg.0, seg.1, Seg-update h f nodes (some x) after xs apart.1 seg.2)

pub Seg-update_through :
    (p : Option ℕ) (f : Node → Node) (nodes : Memory) (before after : Option ℕ) (xs : List ℕ)
    → Avoids p xs
    → Seg nodes before xs after
    → Seg (update_through p f nodes) before xs after
Seg-update_through none f nodes before after xs avoids seg = seg
Seg-update_through (some h) f nodes before after xs avoids seg =
    Seg-update h f nodes before after xs avoids seg

first-append :
    (xs ys : List ℕ) (after : Option ℕ) → first (xs ++ ys) after ≡ first xs (first ys after)
first-append [] ys after = refl
first-append (x ∷ xs) ys after = refl

pub final-append : (b : Option ℕ) (xs ys : List ℕ) → final b (xs ++ ys) ≡ final (final b xs) ys
final-append b [] ys = refl
final-append b (x ∷ xs) ys = final-append (some x) xs ys

pub Seg-split :
    (nodes : Memory) (before after : Option ℕ) (xs ys : List ℕ)
    → Seg nodes before (xs ++ ys) after
    → Seg nodes before xs (first ys after) × Seg nodes (final before xs) ys after
Seg-split nodes before after [] ys seg = (tt, seg)
Seg-split nodes before after (x ∷ xs) ys seg =
    let (left, right) = Seg-split nodes (some x) after xs ys seg.2 in
    ((seg.0, seg.1 ∙ first-append xs ys after, left), right)

pub Seg-join :
    (nodes : Memory) (before after : Option ℕ) (xs ys : List ℕ)
    → Seg nodes before xs (first ys after)
    → Seg nodes (final before xs) ys after
    → Seg nodes before (xs ++ ys) after
Seg-join nodes before after [] ys left right = right
Seg-join nodes before after (x ∷ xs) ys left right = (
  left.0,
  left.1 ∙ sym (first-append xs ys after),
  Seg-join nodes (some x) after xs ys left.2 right,
)

Apart-append : (h : ℕ) (xs ys : List ℕ) → Apart h (xs ++ ys) → Apart h xs × Apart h ys
Apart-append h [] ys a = (tt, a)
Apart-append h (x ∷ xs) ys a = let (left, right) = Apart-append h xs ys a.1 in ((a.0, left), right)

pub Apart-join : (h : ℕ) (xs ys : List ℕ) → Apart h xs → Apart h ys → Apart h (xs ++ ys)
Apart-join h [] ys l r = r
Apart-join h (x ∷ xs) ys l r = (l.0, Apart-join h xs ys l.1 r)

-- Distinct lists, taken apart around one handler.
pub record Around (xs : List ℕ) (h : ℕ) (ys : List ℕ) : Type 0 where
  pub left_apart : Apart h xs
  pub right_apart : Apart h ys
  pub left_avoids : Avoids (first ys none) xs
  pub right_avoids : Avoids (final none xs) ys
  pub rest_distinct : AreDistinct (xs ++ ys)
  pub left_distinct : AreDistinct xs
  pub right_distinct : AreDistinct ys

pub other : (x y : ℕ) → (x == y) ≡ false → (y == x) ≡ false
other x y h = ground (arith, h)

pub itself : (x : ℕ) → (x == x) ≡ true
itself x = ground arith

distinct-split :
    (xs ys : List ℕ)
    → AreDistinct (xs ++ ys)
    → AreDistinct xs × AreDistinct ys × All (λ x. Apart x ys) xs
distinct-split [] ys d = (tt, d, tt)
distinct-split (x ∷ xs) ys d =
    let (left, right, apart) = distinct-split xs ys d.1 in
    let (here, there) = Apart-append x xs ys d.0 in ((here, left), right, (there, apart))

pub distinct-join :
    (xs ys : List ℕ)
    → AreDistinct xs
    → AreDistinct ys
    → All (λ x. Apart x ys) xs
    → AreDistinct (xs ++ ys)
distinct-join [] ys left right apart = right
distinct-join (x ∷ xs) ys left right apart =
    (Apart-join x xs ys left.0 apart.0, distinct-join xs ys left.1 right apart.1)

heads-Apart : (h : ℕ) (xs ys : List ℕ) → All (λ x. Apart x (h ∷ ys)) xs → Apart h xs
heads-Apart h [] ys a = tt
heads-Apart h (x ∷ xs) ys a = (other h x a.0.0, heads-Apart h xs ys a.1)

tails-Apart : (h : ℕ) (xs ys : List ℕ) → All (λ x. Apart x (h ∷ ys)) xs → All (λ x. Apart x ys) xs
tails-Apart h [] ys a = tt
tails-Apart h (x ∷ xs) ys a = (a.0.1, tails-Apart h xs ys a.1)

first-Avoids : (xs ys : List ℕ) → All (λ x. Apart x ys) xs → Avoids (first ys none) xs
first-Avoids xs [] a = tt
first-Avoids xs (y ∷ ys) a = heads-Apart y xs ys a

final-Avoids :
    (before : Option ℕ) (xs ys : List ℕ)
    → Avoids before ys
    → All (λ x. Apart x ys) xs
    → Avoids (final before xs) ys
final-Avoids before [] ys b a = b
final-Avoids before (x ∷ xs) ys b a = final-Avoids (some x) xs ys a.0 a.1

pub AreDistinct-Around : (xs ys : List ℕ) (h : ℕ) → AreDistinct (xs ++ h ∷ ys) → Around xs h ys
AreDistinct-Around xs ys h d =
    let (left, right, apart) = distinct-split xs (h ∷ ys) d in
    let apart' = tails-Apart h xs ys apart in
    record {
      left_apart = heads-Apart h xs ys apart;
      right_apart = right.0;
      left_avoids = first-Avoids xs ys apart';
      right_avoids = final-Avoids none xs ys tt apart';
      rest_distinct = distinct-join xs ys left right.1 apart';
      left_distinct = left;
      right_distinct = right.1;
    }

pub final_other :
    (x : ℕ) (before : Option ℕ) (xs : List ℕ)
    → Avoids before (x ∷ [])
    → Apart x xs
    → Avoids (final before xs) (x ∷ [])
final_other x before [] b a = b
final_other x before (y ∷ xs) b a = final_other x (some y) xs (other y x a.0, tt) a.1

pub through-other :
    (p : Option ℕ) (f : Node → Node) (nodes : Memory) (x : ℕ)
    → Avoids p (x ∷ [])
    → update_through p f nodes x ≡ nodes x
through-other none f nodes x a = refl
through-other (some h) f nodes x a = rw (a.0) refl

-- The last handler of a segment gets another one behind it.
pub set_next-Seg :
    (nodes : Memory) (before after v : Option ℕ) (xs : List ℕ)
    → AreDistinct xs
    → Seg nodes before xs after
    → Seg (update_through (final before xs) (set_next v) nodes) before xs v
set_next-Seg nodes before after v [] d seg = tt
set_next-Seg nodes before after v (x ∷ []) d seg = rw (itself x) (seg.0, refl, tt)
set_next-Seg nodes before after v (x ∷ y ∷ xs) d seg =
    let same =
      through-other (final (some x) (y ∷ xs)) (set_next v) nodes x
        (final_other x (some y) xs (other y x d.0.0, tt) d.0.1) in
    (
      ap (λ n. n.prev) same ∙ seg.0,
      ap (λ n. n.next) same ∙ seg.1,
      set_next-Seg nodes (some x) after v (y ∷ xs) d.1 seg.2,
    )

-- The first one gets another one before it.
pub set_prev-Seg :
    (nodes : Memory) (before after v : Option ℕ) (xs : List ℕ)
    → AreDistinct xs
    → Seg nodes before xs after
    → Seg (update_through (first xs none) (set_prev v) nodes) v xs after
set_prev-Seg nodes before after v [] d seg = tt
set_prev-Seg nodes before after v (x ∷ xs) d seg =
    rw (itself x) (refl, seg.1, Seg-update x (set_prev v) nodes (some x) after xs d.0 seg.2)

pub first_other : (h : ℕ) (ys : List ℕ) → Apart h ys → Avoids (first ys none) (h ∷ [])
first_other h [] a = tt
first_other h (y ∷ ys) a = (other y h a.0, tt)
