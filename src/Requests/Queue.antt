-- ===== src/Requests/Queue.antt =====
-- No request waits while the handler is idle, and none is lost.
use mohpc.Base.{
  ℕ, ◌+◌, ◌-◌, ◌≡◌, inl, inr, refl, sym, ◌∙◌, arith, List, [], ◌∷◌, ◌++◌, Bool, true, false,
  Bool-cases, ltb, leb, ◌==◌, not, ◌&&◌, Option, none, some, All,
}
use mohpc.Requests.{
  Protocol, Handler, set_request_timeout, set_deferred_start, send_data, send_bytes, start_request,
  start_pending, deque_request, send_beside, send_request, handle_new_request, handle_current,
  handle_incoming, time_out_current, process_time_out, process_deferred, send_deferred,
}

some_none : {A : Type 0} {B : Type 0} {a : A} → some a ≡ none → B
some_none e = absurd (ground arith)

module _ (p : Protocol) where
  open p use {Request, Input}

  -- A handler without an active request has none that waits.
  abbrev pub IsBusy : Handler Request → Type 0
  IsBusy h = h.request ≡ none → h.pending ≡ []

  start_pending-IsBusy :
      (now : ℕ) (queue : List (Request × ℕ)) (h : Handler Request)
      → IsBusy (start_pending p now queue h)
  unfolding start_pending
  start_pending-IsBusy now [] h = λ _. refl
  start_pending-IsBusy now ((r, timeout) ∷ rest) h = elim (Bool-cases (p.must_process r)) [
    | inl must ↦ rw must (λ e. some_none e)
    | inr later ↦ rw later (start_pending-IsBusy now rest (start_request p now r timeout h))
  ]

  send_beside-IsBusy :
      (now : ℕ) (r : Request) (timeout : ℕ) (h : Handler Request) (active : Option Request)
      → h.request ≡ active
      → IsBusy (send_beside p now r timeout h active)
  unfolding send_beside deque_request
  send_beside-IsBusy now r timeout h (some a) e = λ n. some_none (sym e ∙ n)
  send_beside-IsBusy now r timeout h none e = elim (Bool-cases (p.must_process r)) [
    | inl must ↦ rw must (λ n. some_none n)
    | inr later ↦ rw later (start_pending-IsBusy now _ (start_request p now r timeout h))
  ]

  send_request-IsBusy :
      (now : ℕ) (r : Request) (timeout : ℕ) (h : Handler Request)
      → IsBusy (send_request p now r timeout h)
  unfolding send_request
  send_request-IsBusy now r timeout h = send_beside-IsBusy now r timeout h h.request refl

  send_bytes-keeps :
      (bytes : List ℕ) (h : Handler Request)
      → ((send_bytes p bytes h).request ≡ h.request) × ((send_bytes p bytes h).pending ≡ h.pending)
  send_bytes-keeps [] h = (refl, refl)
  send_bytes-keeps (b ∷ bytes) h = (refl, refl)

  start_request-keeps :
      (now : ℕ) (r : Request) (timeout : ℕ) (h : Handler Request)
      → ((start_request p now r timeout h).request ≡ h.request)
        × ((start_request p now r timeout h).pending ≡ h.pending)
  unfolding start_request set_request_timeout set_deferred_start send_data
  start_request-keeps now r timeout h = elim (Bool-cases (ltb 0 (p.deferred_time r))) [
    | inl deferred ↦ rw deferred (refl, refl)
    | inr direct ↦
        rw direct
          (send_bytes-keeps (p.generate_output r) (record h { start_time = now; defer_time = 0 }))
  ]

  handle_new_request-IsBusy :
      (now : ℕ) (new : Option Request) (current : Request) (resend : Bool) (h : Handler Request)
      → h.request ≡ some current
      → IsBusy (handle_new_request p now new current resend h)
  unfolding handle_new_request deque_request
  handle_new_request-IsBusy now none current resend h e = start_pending-IsBusy now _ _
  handle_new_request-IsBusy now (some r) current resend h e = elim (Bool-cases (p.same r current)) [
    | inl same ↦ rw same (elim (Bool-cases resend) [
      | inl again ↦ rw again (λ n.
          some_none
            (sym e ∙ sym ((start_request-keeps now r (h.timeout_time - h.start_time) h).0) ∙ n))
      | inr once ↦ rw once (λ n. some_none (sym e ∙ n))
    ])
    | inr other ↦
        rw other
          (send_request-IsBusy now r (h.timeout_time - h.start_time) (record h { request = none }))
  ]

  -- What happens to a handler, and when.
  pub data Event : Type 0 where
    sends : Request → ℕ → Event
    hears : Input → Event
    checks_timeout : Event
    checks_deferred : Event

  unfoldable pub step : ℕ → Event → Handler Request → Handler Request
  step now (sends r timeout) h = send_request p now r timeout h
  step now (hears input) h = handle_incoming p now input h
  step now checks_timeout h = (process_time_out p now h).1
  step now checks_deferred h = (process_deferred p now h).1

  unfoldable pub run : List (ℕ × Event) → Handler Request → Handler Request
  run [] h = h
  run ((now, event) ∷ rest) h = run rest (step now event h)

  handle_current-IsBusy :
      (now : ℕ) (input : Input) (h : Handler Request) (active : Option Request)
      → h.request ≡ active
      → IsBusy h
      → IsBusy (handle_current p now input h active)
  unfolding handle_current
  handle_current-IsBusy now input h none e busy = busy
  handle_current-IsBusy now input h (some current) e busy =
      elim (Bool-cases (p.is_this_request current input)) [
        | inl mine ↦ rw mine (
            handle_new_request-IsBusy now (p.process current input) current false
              (record h { timeout_time = now + (h.timeout_time - h.start_time) }) e)
        | inr other ↦ rw other busy
      ]

  time_out_current-IsBusy :
      (now : ℕ) (h : Handler Request) (active : Option Request)
      → h.request ≡ active
      → IsBusy h
      → IsBusy (time_out_current p now h active).1
  unfolding time_out_current
  time_out_current-IsBusy now h none e busy = busy
  time_out_current-IsBusy now h (some current) e busy =
      elim (Bool-cases (not (h.timeout_time == h.start_time) && leb h.timeout_time now)) [
        | inl late ↦ rw late (handle_new_request-IsBusy now (p.timed_out current) current true h e)
        | inr early ↦ rw early busy
      ]

  send_deferred-IsBusy :
      (h : Handler Request) (active : Option Request)
      → h.request ≡ active
      → IsBusy h
      → IsBusy (send_deferred p h active).1
  unfolding send_deferred send_data
  send_deferred-IsBusy h none e busy = busy
  send_deferred-IsBusy h (some r) e busy =
      let (request, pending) =
        send_bytes-keeps (p.generate_output r) (record h { defer_time = 0 }) in
      λ n. pending ∙ busy (sym request ∙ n)

  process_deferred-IsBusy :
      (now : ℕ) (h : Handler Request) → IsBusy h → IsBusy (process_deferred p now h).1
  unfolding process_deferred
  process_deferred-IsBusy now h busy = elim (Bool-cases (h.defer_time == 0)) [
    | inl direct ↦ rw direct busy
    | inr deferred ↦ elim (Bool-cases (ltb now h.defer_time)) [
      | inl early ↦ rw deferred (rw early busy)
      | inr due ↦ rw deferred (rw due (send_deferred-IsBusy h h.request refl busy))
    ]
  ]

  -- Whatever is sent and heard, in any order, and whenever timeouts and deferred requests are looked
  -- at: a request only waits while another one is active, if that holds at first.
  pub run-IsBusy :
      (events : List (ℕ × Event)) (h : Handler Request)
      → (h.request ≡ none → h.pending ≡ [])
      → (run events h).request ≡ none
      → (run events h).pending ≡ []
  unfolding run step handle_incoming process_time_out
  run-IsBusy [] h busy = busy
  run-IsBusy ((now, sends r timeout) ∷ rest) h busy =
      run-IsBusy rest (send_request p now r timeout h) (send_request-IsBusy now r timeout h)
  run-IsBusy ((now, hears input) ∷ rest) h busy =
      run-IsBusy rest (handle_incoming p now input h)
        (handle_current-IsBusy now input h h.request refl busy)
  run-IsBusy ((now, checks_timeout) ∷ rest) h busy =
      run-IsBusy rest (process_time_out p now h).1
        (time_out_current-IsBusy now h h.request refl busy)
  run-IsBusy ((now, checks_deferred) ∷ rest) h busy =
      run-IsBusy rest (process_deferred p now h).1 (process_deferred-IsBusy now h busy)

  -- When the active request is done, the first one of the queue that must be processed is active, and
  -- those behind it wait on; the ones before it are only sent.
  pub deque_request-first :
      (now : ℕ) (skipped : List (Request × ℕ)) (r : Request) (timeout : ℕ)
      (rest : List (Request × ℕ)) (h : Handler Request)
      → All (λ q. p.must_process q.0 ≡ false) skipped
      → p.must_process r ≡ true
      → h.pending ≡ skipped ++ (r, timeout) ∷ rest
      → ((deque_request p now h).request ≡ some r) × ((deque_request p now h).pending ≡ rest)
  unfolding deque_request start_pending
  deque_request-first now skipped r timeout rest h all must e =
      rw e (first now skipped (record h { pending = skipped ++ (r, timeout) ∷ rest }) all)
    where
      first :
          (now : ℕ) (skipped : List (Request × ℕ)) (h : Handler Request)
          → All (λ q. p.must_process q.0 ≡ false) skipped
          → ((start_pending p now (skipped ++ (r, timeout) ∷ rest) h).request ≡ some r)
            × ((start_pending p now (skipped ++ (r, timeout) ∷ rest) h).pending ≡ rest)
      first now [] h all = rw must (refl, refl)
      first now ((q, t) ∷ skipped) h all =
          rw all.0 (first now skipped (start_request p now q t h) all.1)
