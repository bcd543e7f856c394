-- ===== src/Dispatcher/Waiting.antt =====
-- How long the dispatcher waits for a message: until the first deferred request is due.
use mohpc.Base.{
  ℕ, ◌-◌, ◌/◌, ◌≤◌, ◌≡◌, ◌≢◌, refl, sym, ap, subst, ◌∙◌, ◌⊎◌, inl, inr, arith, List, [], ◌∷◌, true,
  false, Bool-cases, not, ltb, ◌==◌, ◌&&◌, All,
}
use mohpc.Dispatcher.{first_set, nearest, get_wait_time}

abbrev pub Somewhere : (ℕ → Type 0) → List ℕ → Type 0
Somewhere P [] = ⊥
Somewhere P (x ∷ xs) = P x ⊎ Somewhere P xs

-- `m` is before none of the times that are set; it is one of them.
abbrev pub NotAfter : ℕ → List ℕ → Type 0
NotAfter m times = All (λ t. t ≢ 0 → m ≤ t) times

abbrev pub OneSet : ℕ → List ℕ → Type 0
OneSet m times = Somewhere (λ t. (t ≢ 0) × (t ≡ m)) times

first_set-cases :
    (times : List ℕ)
    → ((first_set times ≡ 0) × All (λ t. t ≡ 0) times)
      ⊎ ((first_set times ≢ 0) × OneSet (first_set times) times)
unfolding first_set
first_set-cases [] = inl (refl, tt)
first_set-cases (t ∷ times) = elim (Bool-cases (t == 0)) [
  | inl unset ↦
      let step : first_set (t ∷ times) ≡ first_set times = rw unset refl in
      subst (λ r. ((r ≡ 0) × All (λ u. u ≡ 0) (t ∷ times)) ⊎ ((r ≢ 0) × OneSet r (t ∷ times)))
        (sym step)
        (elim (first_set-cases times) [
          | inl (none_set, all) ↦ inl (none_set, (ground (arith, unset), all))
          | inr (set, found) ↦ inr (set, inr found)
        ])
  | inr set ↦
      let step : first_set (t ∷ times) ≡ t = rw set refl in
      let there : t ≢ 0 = ground (arith, set) in
      subst (λ r. ((r ≡ 0) × All (λ u. u ≡ 0) (t ∷ times)) ⊎ ((r ≢ 0) × OneSet r (t ∷ times)))
        (sym step) (inr (there, inl (there, refl)))
]

-- What the second loop makes of a time: it is not after any, and it is the first or one of the others.
abbrev Least : ℕ → List ℕ → ℕ → Type 0
Least m times r = (r ≤ m) × NotAfter r times × ((r ≡ m) ⊎ OneSet r times)

nearest-Least : (m : ℕ) (times : List ℕ) → Least m times (nearest m times)
unfolding nearest
nearest-Least m [] = (omega arith, tt, inl refl)
nearest-Least m (t ∷ times) = elim (Bool-cases (not (t == 0) && ltb t m)) [
  | inl nearer ↦
      let step : nearest m (t ∷ times) ≡ nearest t times = rw nearer refl in
      let (below, all, one) = nearest-Least t times in
      let there : t ≢ 0 = ground (arith, nearer) in
      subst (Least m (t ∷ times)) (sym step) (
        ground (arith, nearer, below),
        ((λ set. below), all),
        inr (elim one [ inl same ↦ inl (there, sym same) | inr found ↦ inr found ]),
      )
  | inr farther ↦
      let step : nearest m (t ∷ times) ≡ nearest m times = rw farther refl in
      let (below, all, one) = nearest-Least m times in
      subst (Least m (t ∷ times)) (sym step) (
        below,
        ((λ set. ground (arith, farther, below, set)), all),
        elim one [ inl same ↦ inl same | inr found ↦ inr (inr found) ],
      )
]

waits_for :
    (now m : ℕ) (times : List ℕ)
    → NotAfter m times
    → All (λ t. t ≢ 0 → (m - now) / 1000000 ≤ (t - now) / 1000000) times
waits_for now m [] all = tt
waits_for now m (t ∷ times) all =
    ((λ set. let below : m ≤ t = all.0 set in omega (arith, below)), waits_for now m times all.1)

waits_one :
    (now m : ℕ) (times : List ℕ)
    → OneSet m times
    → Somewhere (λ t. (t ≢ 0) × ((t - now) / 1000000 ≡ (m - now) / 1000000)) times
waits_one now m [] one = one
waits_one now m (t ∷ times) (inl (set, same)) = inl (set, ap (λ x. (x - now) / 1000000) same)
waits_one now m (t ∷ times) (inr one) = inr (waits_one now m times one)

-- The times that are left until the deferred ones, in milliseconds.
abbrev pub left_until : ℕ → ℕ → ℕ
left_until now t = (t - now) / 1000000

one-set : (m : ℕ) (times : List ℕ) → OneSet m times → m ≢ 0
one-set m [] one = absurd one
one-set m (t ∷ times) (inl (set, same)) = λ zero_m. set (same ∙ zero_m)
one-set m (t ∷ times) (inr one) = one-set m times one

set-wait :
    (comms now : ℕ) (times : List ℕ)
    → first_set times ≢ 0
    → OneSet (first_set times) times
    → (m : ℕ) × (get_wait_time comms now times ≡ left_until now m)
      × NotAfter m times
      × OneSet m times
unfolding get_wait_time
set-wait comms now times set one =
    let m = nearest (first_set times) times in
    let (below, all, found) = nearest-Least (first_set times) times in
    let one' : OneSet m times = elim found [
      | inl same ↦ subst (λ r. OneSet r times) (sym same) one
      | inr there ↦ there
    ] in
    let test : (m == 0) ≡ false = ground (arith, one-set m times one') in
    (m, rw test (ground arith), all, one')

unset-wait :
    (comms now : ℕ) (times : List ℕ)
    → first_set times ≡ 0
    → get_wait_time comms now times ≡ 1000 / comms
unfolding get_wait_time
unset-wait comms now times unset =
    let (below, _, _) = nearest-Least (first_set times) times in
    let test : (nearest (first_set times) times == 0) ≡ true = ground (arith, below, unset) in
    rw test refl

-- getWaitTime: with no deferred time set it shares a second among the communicators; otherwise it
-- is just as long as is left until one that is set, and no longer than is left until any of them,
-- in whole milliseconds and zero for one that is past.
pub get_wait_time_lem :
    (comms now : ℕ) (times : List ℕ)
    → (All (λ t. t ≡ 0) times × (get_wait_time comms now times ≡ 1000 / comms))
      ⊎ (All (λ t. t ≢ 0 → get_wait_time comms now times ≤ left_until now t) times
          × Somewhere (λ t. (t ≢ 0) × (left_until now t ≡ get_wait_time comms now times)) times)
get_wait_time_lem comms now times = elim (first_set-cases times) [
  | inl (unset, all) ↦ inl (all, unset-wait comms now times unset)
  | inr (set, one) ↦
      let (m, same, before, there) = set-wait comms now times set one in
      inr (
        subst
          (λ r.
            All (λ t. t ≢ 0 → r ≤ left_until now t) times
            × Somewhere (λ t. (t ≢ 0) × (left_until now t ≡ r)) times)
          (sym same) (waits_for now m times before, waits_one now m times there))
]
