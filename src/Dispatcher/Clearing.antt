-- ===== src/Dispatcher/Clearing.antt =====
-- A dispatcher that is destroyed before its handlers.
use mohpc.Base.{
  ℕ, zero, suc, ◌≤◌, ◌≡◌, refl, sym, subst, ◌∙◌, arith, List, [], ◌∷◌, All, length, Option, none,
  some,
}
use mohpc.Dispatcher.{
  Memory, Dispatcher, update, destroy_handler, forget, forgotten, clear_handlers,
}
use mohpc.Dispatcher.Links.{first, Seg, Apart, AreDistinct, Seg-update, itself}
use mohpc.Dispatcher.Handlers.{Has}

forget-other :
    (rounds x : ℕ) (nodes : Memory) (before : Option ℕ) (xs : List ℕ)
    → Apart x xs
    → AreDistinct xs
    → Seg nodes before xs none
    → forget rounds (first xs none) nodes x ≡ nodes x
unfolding forget
forget-other zero x nodes before xs apart d seg = refl
forget-other (suc rounds) x nodes before [] apart d seg = refl
forget-other (suc rounds) x nodes before (y ∷ xs) apart d seg =
    let here : update y (λ _. forgotten) nodes x ≡ nodes x = ground (arith, apart.0) in
    rw (seg.1) (
      forget-other rounds x (update y (λ _. forgotten) nodes) (some y) xs apart.1 d.1
        (Seg-update y (λ _. forgotten) nodes (some y) none xs d.0 seg.2)
      ∙ here)

forget-frees :
    (rounds : ℕ) (nodes : Memory) (before : Option ℕ) (xs : List ℕ)
    → length xs ≤ rounds
    → AreDistinct xs
    → Seg nodes before xs none
    → All (λ x. forget rounds (first xs none) nodes x ≡ forgotten) xs
unfolding forget
forget-frees rounds nodes before [] l d seg = tt
forget-frees zero nodes before (x ∷ xs) l d seg = absurd (omega arith)
forget-frees (suc rounds) nodes before (x ∷ xs) l d seg =
    let rest = Seg-update x (λ _. forgotten) nodes (some x) none xs d.0 seg.2 in
    let here : update x (λ _. forgotten) nodes x ≡ forgotten = rw (itself x) refl in
    let nodes' = update x (λ _. forgotten) nodes in
    subst (λ p. All (λ y. forget rounds p nodes' y ≡ forgotten) (x ∷ xs)) (sym seg.1)
      (
        forget-other rounds x (update x (λ _. forgotten) nodes) (some x) xs d.0 d.1 rest ∙ here,
        forget-frees rounds (update x (λ _. forgotten) nodes) (some x) xs (omega arith) d.1 rest,
      )

destroy-forgotten :
    (d : Dispatcher) (xs : List ℕ)
    → All (λ x. d.nodes x ≡ forgotten) xs
    → All (λ x. destroy_handler x d ≡ d) xs
unfolding destroy_handler
destroy-forgotten d [] all = tt
destroy-forgotten d (x ∷ xs) all = (rw (all.0) refl, destroy-forgotten d xs all.1)

-- A dispatcher with a list of handlers that is destroyed before them is left with none, and each
-- of them can be destroyed later without touching any link; as many rounds as there are handlers
-- are enough.
pub clear_handlers-frees :
    (rounds : ℕ) (xs : List ℕ) (d : Dispatcher)
    → length xs ≤ rounds
    → Has xs d
    → Has [] (clear_handlers rounds d)
      × All (λ x. destroy_handler x (clear_handlers rounds d) ≡ clear_handlers rounds d) xs
unfolding clear_handlers
clear_handlers-frees rounds xs d enough has = rw (has.root_first) (
  (record { root_first = refl; last_final = refl; links = tt; distinct = tt; all_attached = tt }),
  destroy-forgotten
      (record d { nodes = forget rounds (first xs none) d.nodes; root = none; last = none }) xs
      (forget-frees rounds d.nodes none xs enough has.distinct has.links),
)
