-- ===== src/Dispatcher/Limit.antt =====
-- When the limit of mohpc-lib/Utility/MessageDispatcher.cpp's processIncomingMessages ends it.
use mohpc.Base.{
  ℕ, ◌+◌, ◌*◌, ◌≤◌, ◌<◌, ◌≡◌, refl, sym, ap, ◌∙◌, ◌⊎◌, inl, inr, arith, List, [], ◌∷◌, ◌++◌, Bool,
  true, false, Bool-cases, ◌||◌, length, All, some,
}
use mohpc.Dispatcher.{
  Dispatcher, Handling, needs_processing, Round, process_round, is_reached,
  process_incoming_messages,
}
use mohpc.Dispatcher.Handlers.{Has}
use mohpc.Dispatcher.Serving.{is_any_requesting, needs_processing-Has, after_rounds}

module _ (k : Handling) where
  open k use {World}

  -- A limit in milliseconds is zero, or the clock in nanoseconds has come to it; or neither.
  abbrev pub Reaches : ℕ → ℕ → ℕ → Type 0
  Reaches ms start now = (ms ≡ 0) ⊎ (start + ms * 1000000 ≤ now)

  abbrev pub IsBefore : ℕ → ℕ → ℕ → Type 0
  IsBefore ms start now = (0 < ms) × (now < start + ms * 1000000)

  is_reached-Reaches :
      (ms start now : ℕ) → Reaches ms start now → is_reached (some ms) start now ≡ true
  is_reached-Reaches ms start now h = ground (arith, h)

  is_reached-cases :
      (ms start now : ℕ)
      → ((is_reached (some ms) start now ≡ true) × Reaches ms start now)
        ⊎ ((is_reached (some ms) start now ≡ false) × IsBefore ms start now)
  is_reached-cases ms start now = ground arith

  -- It is left after some of the rounds, with none of them at the limit but perhaps the last: either
  -- no handler asks any more, or one did before the last round, and that one came to the limit.
  abbrev pub IsLeft : ℕ → Dispatcher → List ℕ → ℕ → ℕ → List (Round k) → World → World → Type 0
  IsLeft rounds d xs ms start rs w w' =
      (done : List (Round k)) × (rest : List (Round k)) × All (λ q. IsBefore ms start q.time_after)
        done
      × (((rs ≡ done ++ rest)
            × (w' ≡ after_rounds k rounds d (some ms) done w)
            × (is_any_requesting k xs w' ≡ false))
          ⊎ ((q : Round k) × (rs ≡ done ++ q ∷ rest)
              × Reaches ms start q.time_after
              × (is_any_requesting k xs (after_rounds k rounds d (some ms) done w) ≡ true)
              × (w' ≡ after_rounds k rounds d (some ms) (done ++ q ∷ []) w)))

  later-IsLeft :
      (rounds : ℕ) (d : Dispatcher) (xs : List ℕ) (ms start : ℕ) (q : Round k) (rs : List (Round k))
      (w w' : World)
      → IsBefore ms start q.time_after
      → IsLeft rounds d xs ms start rs (process_round k rounds d (some ms) q w).1 w'
      → IsLeft rounds d xs ms start (q ∷ rs) w w'
  later-IsLeft rounds d xs ms start q rs w w' before (done, rest, all, inl (split, ran, idle)) =
      (q ∷ done, rest, (before, all), inl (ap (λ l. q ∷ l) split, ran, idle))
  later-IsLeft rounds d xs ms start q rs w w' before
        (done, rest, all, inr (r, split, now, asks, ran)) =
      (q ∷ done, rest, (before, all), inr (r, ap (λ l. q ∷ l) split, now, asks, ran))

  -- With a limit, of a dispatcher with a list of handlers: if at the end of some round the limit is
  -- zero or the clock has come to it, processIncomingMessages returns, whatever the handlers do. It
  -- returns once no handler asks, or else after the first round that comes to the limit, and what the
  -- handlers keep is what those rounds made of it.
  pub process_incoming_messages-IsLeft :
      (xs : List ℕ) (d : Dispatcher) (rounds ms start : ℕ) (front : List (Round k)) (r : Round k)
      (behind : List (Round k)) (processed : Bool) (w : World)
      → length xs ≤ rounds
      → Has xs d
      → Reaches ms start r.time_after
      → (processed' : Bool) × (w' : World) × (process_incoming_messages k rounds d
            (some ms)
            start
            (front ++ r ∷ behind)
            processed
            w
          ≡ some (processed', w'))
        × IsLeft rounds d xs ms start (front ++ r ∷ behind) w w'
  unfolding process_incoming_messages
  process_incoming_messages-IsLeft xs d rounds ms start [] r behind processed w enough has now =
      let same = needs_processing-Has k xs d rounds w enough has in
      elim (Bool-cases (needs_processing k rounds d.nodes d.root w)) [
        | inr idle ↦
            (processed, w, rw idle refl, ([], r ∷ behind, tt, inl (refl, refl, sym same ∙ idle)))
        | inl asks ↦ (
          processed || (process_round k rounds d (some ms) r w).0,
          (process_round k rounds d (some ms) r w).1,
          rw (asks, is_reached-Reaches ms start r.time_after now) refl,
          ([], behind, tt, inr (r, refl, now, sym same ∙ asks, refl)),
        )
      ]
  process_incoming_messages-IsLeft xs d rounds ms start (q ∷ front) r behind processed w enough has
        now =
      let same = needs_processing-Has k xs d rounds w enough has in
      elim (Bool-cases (needs_processing k rounds d.nodes d.root w)) [
        | inr idle ↦ (
          processed,
          w,
          rw idle refl,
          ([], q ∷ (front ++ r ∷ behind), tt, inl (refl, refl, sym same ∙ idle)),
        )
        | inl asks ↦ elim (is_reached-cases ms start q.time_after) [
          | inl (over, reaches) ↦ (
            processed || (process_round k rounds d (some ms) q w).0,
            (process_round k rounds d (some ms) q w).1,
            rw (asks, over) refl,
            ([], front ++ r ∷ behind, tt, inr (q, refl, reaches, sym same ∙ asks, refl)),
          )
          | inr (more, before) ↦
              let (p', w', ran, left) =
                process_incoming_messages-IsLeft xs d rounds ms start front r behind
                  (processed || (process_round k rounds d (some ms) q w).0)
                  (process_round k rounds d (some ms) q w).1 enough has now in
              (
                p',
                w',
                rw (asks, more) ran,
                later-IsLeft rounds d xs ms start q (front ++ r ∷ behind) w w' before left,
              )
        ]
      ]
