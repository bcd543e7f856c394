-- ===== src/Dispatcher/Growth.antt =====
-- Handlers that come and go, and the loops over them.
use mohpc.Base.{
  ℕ, ◌≡◌, refl, sym, subst, ◌∙◌, inl, inr, arith, List, [], ◌∷◌, ◌++◌, append_assoc, Bool, true,
  false, Bool-cases, ◌==◌, ◌||◌, if◌then◌else◌, All, none, some,
}
use mohpc.Dispatcher.{
  Node, Memory, Dispatcher, update, update_through, set_prev, set_next, or_some, add_handler,
  remove_handler, make_handler, destroy_handler,
}
use mohpc.Dispatcher.Links.{
  first, final, Apart, Seg-update, Seg-join, final-append, through-other, final_other, other,
  itself, distinct-join, set_next-Seg,
}
use mohpc.Dispatcher.Handlers.{
  Has, remove_handler-Has, known_with, set_next-attached, set_prev-attached,
}

behind-Apart : (h : ℕ) (xs : List ℕ) → Apart h xs → All (λ x. Apart x (h ∷ [])) xs
behind-Apart h [] a = tt
behind-Apart h (x ∷ xs) a = ((other x h a.0, tt), behind-Apart h xs a.1)

known_behind : (P : ℕ → Type 0) (xs : List ℕ) (h : ℕ) → All P xs → P h → All P (xs ++ h ∷ [])
known_behind P [] h all p = (p, tt)
known_behind P (x ∷ xs) h all p = (all.0, known_behind P xs h all.1 p)

add-root : (xs : List ℕ) (h : ℕ) → or_some (first xs none) h ≡ first (xs ++ h ∷ []) none
add-root [] h = refl
add-root (x ∷ xs) h = refl

add_handler-Has :
    (xs : List ℕ) (h : ℕ) (d : Dispatcher)
    → Has xs d
    → Apart h xs
    → (d.nodes h).next ≡ none
    → (d.nodes h).attached ≡ true
    → Has (xs ++ h ∷ []) (add_handler h d)
unfolding add_handler
add_handler-Has xs h d has apart alone attached =
    let nodes = update_through (final none xs) (set_next (some h)) d.nodes in
    let same : nodes h ≡ d.nodes h =
      through-other (final none xs) (set_next (some h)) d.nodes h
        (final_other h none xs tt apart) in
    let known : (x : ℕ)
        → (update h (set_prev (final none xs)) nodes x).attached ≡ (d.nodes x).attached =
      λ x.
        set_prev-attached (some h) (final none xs) nodes x
        ∙ set_next-attached (final none xs) (some h) d.nodes x in
    rw (has.root_first, has.last_final)
      (record {
        root_first = add-root xs h;
        last_final = sym (final-append none xs (h ∷ []));
        links =
            Seg-join (update h (set_prev (final none xs)) nodes) none none xs (h ∷ [])
              (Seg-update h (set_prev (final none xs)) nodes none (some h) xs apart
                (set_next-Seg d.nodes none none (some h) xs has.distinct has.links))
              (rw (itself h, same) (refl, alone, tt));
        distinct = distinct-join xs (h ∷ []) has.distinct (tt, tt) (behind-Apart h xs apart);
        all_attached =
            known_with d.nodes (update h (set_prev (final none xs)) nodes) (xs ++ h ∷ []) known
              (known_behind (λ x. (d.nodes x).attached ≡ true) xs h has.all_attached attached);
      })

known_past :
    (h : ℕ) (f : Node → Node) (nodes : Memory) (xs : List ℕ)
    → Apart h xs
    → All (λ x. (nodes x).attached ≡ true) xs
    → All (λ x. (update h f nodes x).attached ≡ true) xs
known_past h f nodes [] apart all = tt
known_past h f nodes (x ∷ xs) apart all =
    (rw (apart.0) all.0, known_past h f nodes xs apart.1 all.1)

pub make_handler-Has :
    (xs : List ℕ) (h : ℕ) (d : Dispatcher)
    → Has xs d
    → Apart h xs
    → Has (xs ++ h ∷ []) (make_handler h d)
unfolding make_handler
make_handler-Has xs h d has apart =
    let fresh : Node → Node = λ _. record { attached = true; prev = none; next = none } in
    add_handler-Has xs h (record d { nodes = update h fresh d.nodes })
      (record {
        root_first = has.root_first;
        last_final = has.last_final;
        links = Seg-update h fresh d.nodes none none xs apart has.links;
        distinct = has.distinct;
        all_attached = known_past h fresh d.nodes xs apart has.all_attached;
      })
      apart (rw (itself h) refl) (rw (itself h) refl)

-- The handlers without one of them, and whether it is one of them.
unfoldable pub without : ℕ → List ℕ → List ℕ
without h [] = []
without h (x ∷ xs) = let later = without h xs in if x == h then xs else x ∷ later

abbrev pub is_among : ℕ → List ℕ → Bool
is_among h [] = false
is_among h (x ∷ xs) = (x == h) || is_among h xs

equal : (x h : ℕ) → (x == h) ≡ true → x ≡ h
equal x h e = ground (arith, e)

attached_among :
    (nodes : Memory) (h : ℕ) (xs : List ℕ)
    → is_among h xs ≡ true
    → All (λ x. (nodes x).attached ≡ true) xs
    → (nodes h).attached ≡ true
attached_among nodes h [] among all = absurd (grind arith)
attached_among nodes h (x ∷ xs) among all = elim (Bool-cases (x == h)) [
  | inl same ↦ subst (λ y. (nodes y).attached ≡ true) (equal x h same) all.0
  | inr differ ↦ attached_among nodes h xs (ground (arith, among, differ)) all.1
]

remove-among :
    (before xs : List ℕ) (h : ℕ) (d : Dispatcher)
    → is_among h xs ≡ true
    → Has (before ++ xs) d
    → Has (before ++ without h xs) (remove_handler h d)
unfolding without
remove-among before [] h d among has = absurd (grind arith)
remove-among before (x ∷ xs) h d among has = elim (Bool-cases (x == h)) [
  | inl same ↦ rw same (
      remove_handler-Has before xs h d (subst (λ y. Has (before ++ y ∷ xs) d) (equal x h same) has))
  | inr differ ↦ rw differ (
      subst (λ ys. Has ys (remove_handler h d)) (append_assoc before (x ∷ []) (without h xs))
        (remove-among (before ++ x ∷ []) xs h d (ground (arith, among, differ))
          (subst (λ ys. Has ys d) (sym (append_assoc before (x ∷ []) xs)) has)))
]

pub destroy_handler-Has :
    (xs : List ℕ) (h : ℕ) (d : Dispatcher)
    → is_among h xs ≡ true
    → Has xs d
    → Has (without h xs) (destroy_handler h d)
unfolding destroy_handler
destroy_handler-Has xs h d among has =
    rw (attached_among d.nodes h xs among has.all_attached) (remove-among [] xs h d among has)
