-- ===== src/Dispatcher/Runs.antt =====
-- The loops over the handlers, whatever handlers came and went before.
use mohpc.Base.{
  ℕ, zero, suc, ◌≤◌, ◌≡◌, refl, ap, arith, List, [], ◌∷◌, ◌++◌, true, length, Option, none, some,
}
use mohpc.Dispatcher.{Memory, Dispatcher, empty_dispatcher, make_handler, destroy_handler, walk}
use mohpc.Dispatcher.Links.{first, Seg, Apart}
use mohpc.Dispatcher.Handlers.{Has}
use mohpc.Dispatcher.Growth.{make_handler-Has, destroy_handler-Has, without, is_among}

-- A handler is constructed at an address, or the one there is destroyed.
pub data Event : Type 0 where
  made : ℕ → Event
  destroyed : ℕ → Event

unfoldable pub run : List Event → Dispatcher → Dispatcher
unfolding make_handler destroy_handler
run [] d = d
run (made h ∷ events) d = run events (make_handler h d)
run (destroyed h ∷ events) d = run events (destroy_handler h d)

-- The handlers that are left of a list, and that none is constructed over another or destroyed twice.
unfoldable pub living : List Event → List ℕ → List ℕ
unfolding without
living [] xs = xs
living (made h ∷ events) xs = living events (xs ++ h ∷ [])
living (destroyed h ∷ events) xs = living events (without h xs)

abbrev pub AreTimely : List Event → List ℕ → Type 0
AreTimely [] xs = Unit {0}
AreTimely (made h ∷ events) xs = Apart h xs × AreTimely events (xs ++ h ∷ [])
AreTimely (destroyed h ∷ events) xs = (is_among h xs ≡ true) × AreTimely events (without h xs)

pub run-Has :
    (events : List Event) (xs : List ℕ) (d : Dispatcher)
    → AreTimely events xs
    → Has xs d
    → Has (living events xs) (run events d)
unfolding run living
run-Has [] xs d timely has = has
run-Has (made h ∷ events) xs d (apart, timely) has =
    run-Has events (xs ++ h ∷ []) (make_handler h d) timely (make_handler-Has xs h d has apart)
run-Has (destroyed h ∷ events) xs d (among, timely) has =
    run-Has events (without h xs) (destroy_handler h d) timely
      (destroy_handler-Has xs h d among has)

walk-Seg :
    (rounds : ℕ) (nodes : Memory) (before : Option ℕ) (xs : List ℕ)
    → length xs ≤ rounds
    → Seg nodes before xs none
    → walk rounds nodes (first xs none) ≡ xs
unfolding walk
walk-Seg zero nodes before [] l seg = refl
walk-Seg zero nodes before (x ∷ xs) l seg = absurd (omega arith)
walk-Seg (suc rounds) nodes before [] l seg = refl
walk-Seg (suc rounds) nodes before (x ∷ xs) l seg =
    rw (seg.1) (ap (◌∷◌ x) (walk-Seg rounds nodes (some x) xs (omega arith) seg.2))

pub empty-Has : (nodes : Memory) → Has [] (empty_dispatcher nodes)
empty-Has nodes = record {
  root_first = refl;
  last_final = refl;
  links = tt;
  distinct = tt;
  all_attached = tt;
}

-- Handlers are constructed, none at the address of one that lives, and destroyed, none that does
-- not live, in any order: a loop from the root along next then ends within as many rounds as there
-- are handlers, and comes by just those that live, in the order they were constructed.
pub walk-run :
    (events : List Event) (nodes : Memory) (rounds : ℕ)
    → AreTimely events []
    → length (living events []) ≤ rounds
    → walk rounds
        (run events (empty_dispatcher nodes)).nodes
        (run events (empty_dispatcher nodes)).root
      ≡ living events []
walk-run events nodes rounds timely enough =
    let has = run-Has events [] (empty_dispatcher nodes) timely (empty-Has nodes) in
    rw (has.root_first) (
      walk-Seg rounds (run events (empty_dispatcher nodes)).nodes none (living events []) enough
        has.links)
