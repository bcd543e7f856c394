-- ===== src/Dispatcher/Serving.antt =====
-- Who is served, and that the dispatcher goes on until nobody asks.
use mohpc.Base.{
  ◌⊎◌, ℕ, zero, suc, ◌≤◌, ◌≡◌, refl, sym, ◌∙◌, inl, inr, arith, List, [], ◌∷◌, Bool, true, false,
  Bool-cases, ◌||◌, length, Option, none, some,
}
use mohpc.Dispatcher.{
  Memory, Dispatcher, Handling, message_from, serve, each, process_comm, needs_processing, Round,
  process_round, process_incoming_messages,
}
use mohpc.Dispatcher.Links.{first, Seg}
use mohpc.Dispatcher.Handlers.{Has}

module _ (k : Handling) where
  open k use {World}

  -- One after the other on a list of handlers, and whether one of them waits for an answer.
  abbrev pub in_turn : (ℕ → World → World) → List ℕ → World → World
  in_turn step [] w = w
  in_turn step (x ∷ xs) w = in_turn step xs (step x w)

  abbrev pub is_any_requesting : List ℕ → World → Bool
  is_any_requesting [] w = false
  is_any_requesting (x ∷ xs) w = k.is_requesting x w || is_any_requesting xs w

  each-Seg :
      (step : ℕ → World → World) (rounds : ℕ) (nodes : Memory) (before : Option ℕ) (xs : List ℕ)
      (w : World)
      → length xs ≤ rounds
      → Seg nodes before xs none
      → each k step rounds nodes (first xs none) w ≡ in_turn step xs w
  unfolding each
  each-Seg step zero nodes before [] w l seg = refl
  each-Seg step zero nodes before (x ∷ xs) w l seg = absurd (omega arith)
  each-Seg step (suc rounds) nodes before [] w l seg = refl
  each-Seg step (suc rounds) nodes before (x ∷ xs) w l seg =
      rw (seg.1) (each-Seg step rounds nodes (some x) xs (step x w) (omega arith) seg.2)

  needs-Seg :
      (rounds : ℕ) (nodes : Memory) (before : Option ℕ) (xs : List ℕ) (w : World)
      → length xs ≤ rounds
      → Seg nodes before xs none
      → needs_processing k rounds nodes (first xs none) w ≡ is_any_requesting xs w
  unfolding needs_processing
  needs-Seg zero nodes before [] w l seg = refl
  needs-Seg zero nodes before (x ∷ xs) w l seg = absurd (omega arith)
  needs-Seg (suc rounds) nodes before [] w l seg = refl
  needs-Seg (suc rounds) nodes before (x ∷ xs) w l seg =
      rw (seg.1, needs-Seg rounds nodes (some x) xs w (omega arith) seg.2)
        (elim (Bool-cases (k.is_requesting x w)) [
          | inl asks ↦ rw asks refl
          | inr idle ↦ rw idle refl
        ])

  -- `last` is what becomes of `w` if each handler of the list, in turn, is handed the message where it
  -- asks and listens to the communicator and the address, and does nothing where it does not.
  abbrev pub AreHanded : ℕ → ℕ → List ℕ → List ℕ → World → World → Type 0
  AreHanded comm address buf [] w last = last ≡ w
  AreHanded comm address buf (x ∷ xs) w last =
      ((k.is_requesting x w ≡ true)
        × (k.listens x comm address w ≡ true)
        × AreHanded comm address buf xs (k.handle_incoming x buf address w) last)
      ⊎ (((k.is_requesting x w ≡ false) ⊎ (k.listens x comm address w ≡ false))
          × AreHanded comm address buf xs w last)

  serve-AreHanded :
      (comm address : ℕ) (buf xs : List ℕ) (w : World)
      → AreHanded comm address buf xs w (in_turn (serve k comm buf address) xs w)
  serve-AreHanded comm address buf [] w = refl
  serve-AreHanded comm address buf (x ∷ xs) w = elim (Bool-cases (k.is_requesting x w)) [
    | inr idle ↦ inr (inl idle, rw idle (serve-AreHanded comm address buf xs w))
    | inl asks ↦ elim (Bool-cases (k.listens x comm address w)) [
      | inl hears ↦ inl (
        asks,
        hears,
        rw (asks, hears) (serve-AreHanded comm address buf xs (k.handle_incoming x buf address w)),
      )
      | inr deaf ↦ inr (inr deaf, rw (asks, deaf) (serve-AreHanded comm address buf xs w))
    ]
  ]

  -- Of a dispatcher with a list of handlers, a message that is not empty is handed, in their
  -- order, to each handler that asks and listens to its communicator and address at its turn; what
  -- the others keep does not change. As many rounds as there are handlers are enough.
  pub process_comm-AreHanded :
      (xs : List ℕ) (d : Dispatcher) (rounds comm address b : ℕ) (buf : List ℕ) (w : World)
      → length xs ≤ rounds
      → Has xs d
      → (w' : World) × (process_comm k rounds d comm (message_from address (b ∷ buf)) w
          ≡ (true, w'))
        × AreHanded comm address (b ∷ buf) xs w w'
  unfolding process_comm
  process_comm-AreHanded xs d rounds comm address b buf w enough has = (
    in_turn (serve k comm (b ∷ buf) address) xs w,
    rw
        (
          has.root_first,
          each-Seg (serve k comm (b ∷ buf) address) rounds d.nodes none xs w enough has.links,
        )
        refl,
    serve-AreHanded comm address (b ∷ buf) xs w,
  )

  pub needs_processing-Has :
      (xs : List ℕ) (d : Dispatcher) (rounds : ℕ) (w : World)
      → length xs ≤ rounds
      → Has xs d
      → needs_processing k rounds d.nodes d.root w ≡ is_any_requesting xs w
  needs_processing-Has xs d rounds w enough has =
      rw (has.root_first) (needs-Seg rounds d.nodes none xs w enough has.links)

  abbrev pub after_rounds : ℕ → Dispatcher → Option ℕ → List (Round k) → World → World
  after_rounds rounds d limit [] w = w
  after_rounds rounds d limit (r ∷ rs) w =
      after_rounds rounds d limit rs (process_round k rounds d limit r w).1

  -- Nobody asks any more; or the rounds ran out, and somebody still asks.
  abbrev pub IsServed : List ℕ → World → Option (Bool × World) → Type 0
  IsServed xs last none = is_any_requesting xs last ≡ true
  IsServed xs last (some (processed, w)) = is_any_requesting xs w ≡ false

  -- Without a limit, of a dispatcher with a list of handlers: processIncomingMessages returns in a
  -- state in which no handler asks; only if one still asks after all the rounds that are given has
  -- it not returned.
  pub process_incoming_messages-IsServed :
      (xs : List ℕ) (d : Dispatcher) (rounds start : ℕ) (rs : List (Round k)) (processed : Bool)
      (w : World)
      → length xs ≤ rounds
      → Has xs d
      → IsServed xs
          (after_rounds rounds d none rs w)
          (process_incoming_messages k rounds d none start rs processed w)
  unfolding process_incoming_messages
  process_incoming_messages-IsServed xs d rounds start [] processed w enough has =
      let same = needs_processing-Has xs d rounds w enough has in
      elim (Bool-cases (needs_processing k rounds d.nodes d.root w)) [
        | inl asks ↦ rw asks (sym same ∙ asks)
        | inr idle ↦ rw idle (sym same ∙ idle)
      ]
  process_incoming_messages-IsServed xs d rounds start (r ∷ rs) processed w enough has =
      let same = needs_processing-Has xs d rounds w enough has in
      elim (Bool-cases (needs_processing k rounds d.nodes d.root w)) [
        | inl asks ↦
            rw asks (process_incoming_messages-IsServed xs d rounds start rs _ _ enough has)
        | inr idle ↦ rw idle (sym same ∙ idle)
      ]
