-- ===== src/Dispatcher/Handlers.antt =====
-- The list of handlers, and what removing one does to it.
use mohpc.Base.{
  ℕ, ◌≡◌, refl, ◌∙◌, arith, List, [], ◌∷◌, ◌++◌, append-nil, true, false, ◌==◌, if◌then◌else◌, All,
  Option, none, some,
}
use mohpc.Dispatcher.{
  Memory, Dispatcher, update_through, set_prev, set_next, points_to, remove_handler,
}
use mohpc.Dispatcher.Links.{
  first, final, Seg, Apart, AreDistinct, Around, Seg-update_through, Seg-split, Seg-join,
  final-append, through-other, first_other, AreDistinct-Around, set_next-Seg, set_prev-Seg,
}

-- The dispatcher has these handlers, in order.
pub record Has (xs : List ℕ) (d : Dispatcher) : Type 0 where
  pub root_first : d.root ≡ first xs none
  pub last_final : d.last ≡ final none xs
  pub links : Seg d.nodes none xs none
  pub distinct : AreDistinct xs
  pub all_attached : All (λ x. (d.nodes x).attached ≡ true) xs

pub set_prev-attached :
    (p v : Option ℕ) (nodes : Memory) (x : ℕ)
    → (update_through p (set_prev v) nodes x).attached ≡ (nodes x).attached
set_prev-attached none v nodes x = refl
set_prev-attached (some h) v nodes x = ground arith

pub set_next-attached :
    (p v : Option ℕ) (nodes : Memory) (x : ℕ)
    → (update_through p (set_next v) nodes x).attached ≡ (nodes x).attached
set_next-attached none v nodes x = refl
set_next-attached (some h) v nodes x = ground arith

pub known_with :
    (before after : Memory) (xs : List ℕ)
    → ((x : ℕ) → (after x).attached ≡ (before x).attached)
    → All (λ x. (before x).attached ≡ true) xs
    → All (λ x. (after x).attached ≡ true) xs
known_with before after [] same all = tt
known_with before after (x ∷ xs) same all = (same x ∙ all.0, known_with before after xs same all.1)

known_without : (P : ℕ → Type 0) (xs ys : List ℕ) (h : ℕ) → All P (xs ++ h ∷ ys) → All P (xs ++ ys)
known_without P [] ys h all = all.1
known_without P (x ∷ xs) ys h all = (all.0, known_without P xs ys h all.1)

remove-root :
    (xs ys : List ℕ) (h : ℕ)
    → Around xs h ys
    → (if points_to (first (xs ++ h ∷ ys) none) h then first ys none else first (xs ++ h ∷ ys) none)
      ≡ first (xs ++ ys) none
remove-root [] ys h a = ground arith
remove-root (x ∷ xs) ys h a = rw (a.left_apart.0) refl

points_to-final :
    (x h : ℕ) (xs : List ℕ)
    → (x == h) ≡ false
    → Apart h xs
    → points_to (final (some x) xs) h ≡ false
points_to-final x h [] here apart = here
points_to-final x h (y ∷ xs) here apart = points_to-final y h xs apart.0 apart.1

remove-last :
    (xs ys : List ℕ) (h : ℕ)
    → Around xs h ys
    → (if points_to (final none (xs ++ h ∷ ys)) h then final none xs else final none (xs ++ h ∷ ys))
      ≡ final none (xs ++ ys)
remove-last xs [] h a = rw (final-append none xs (h ∷ []), append-nil xs) (ground arith)
remove-last xs (y ∷ ys) h a =
    rw
      (
        final-append none xs (h ∷ y ∷ ys),
        final-append none xs (y ∷ ys),
        points_to-final y h ys a.right_apart.0 a.right_apart.1,
      )
      refl

pub remove_handler-Has :
    (xs ys : List ℕ) (h : ℕ) (d : Dispatcher)
    → Has (xs ++ h ∷ ys) d
    → Has (xs ++ ys) (remove_handler h d)
unfolding remove_handler
remove_handler-Has xs ys h d has =
    let a = AreDistinct-Around xs ys h has.distinct in
    let (left, right) = Seg-split d.nodes none none xs (h ∷ ys) has.links in
    let before = final none xs in
    let behind = first ys none in
    let nodes = update_through behind (set_prev before) d.nodes in
    let same : nodes h ≡ d.nodes h =
      through-other behind (set_prev before) d.nodes h (first_other h ys a.right_apart) in
    rw (has.root_first, has.last_final, right.0, right.1, same, right.0, right.1)
      (record {
        root_first = remove-root xs ys h a;
        last_final = remove-last xs ys h a;
        links =
            Seg-join (update_through before (set_next behind) nodes) none none xs ys
              (set_next-Seg nodes none (some h) behind xs a.left_distinct (
                Seg-update_through behind (set_prev before) d.nodes none (some h) xs a.left_avoids
                  left))
              (Seg-update_through before (set_next behind) nodes before none ys a.right_avoids
                (set_prev-Seg d.nodes (some h) none before ys a.right_distinct right.2));
        distinct = a.rest_distinct;
        all_attached =
            known_with d.nodes (update_through before (set_next behind) nodes) (xs ++ ys)
              (λ x.
                set_next-attached before behind nodes x ∙ set_prev-attached behind before d.nodes x)
              (known_without (λ x. (d.nodes x).attached ≡ true) xs ys h has.all_attached);
      })
