-- ===== src/Queue/Limit.antt =====
-- How many messages are on their way, and in which order they go.
use mohpc.Base.{
  ℕ, zero, suc, ◌+◌, ◌-◌, ◌≡◌, ◌≤◌, ◌<◌, refl, sym, subst, inl, inr, Bool-cases, ◌∙◌, arith, List,
  [], ◌∷◌, ◌++◌, append_assoc, append-nil, min, take, drop, length, leb, size_mod,
}
use mohpc.Queue.{
  MessageQueue, transmit_immediately, transmit, done_with, transmit_queued,
  process_pending_messages,
}

-- What happens to a queue.
pub data Event (Message : Type 0) : Type 0 where
  transmits : Message → Event Message
  is_done : Message → Event Message
  processes : Event Message

module _ {Message : Type 0} where
  -- What a round of the queue has done with up to `count` of the messages that wait.
  pub record Sent (count : ℕ) (waiting : List Message) (q q' : MessageQueue Message) : Type 0 where
    pub sent_first : q'.transmitted ≡ q.transmitted ++ take count waiting
    pub rest_waits : q'.message_queue ≡ drop count waiting
    pub counted : q'.num_pending_responses ≡ q.num_pending_responses + min count (length waiting)

  transmit_queued-Sent :
      (count : ℕ) (waiting : List Message) (q : MessageQueue Message)
      → q.num_pending_responses + count < size_mod
      → Sent count waiting q (transmit_queued count waiting q)
  unfolding transmit_queued transmit_immediately
  transmit_queued-Sent zero waiting q h = record {
    sent_first = sym (append-nil q.transmitted);
    rest_waits = refl;
    counted = omega arith;
  }
  transmit_queued-Sent (suc count) [] q h = record {
    sent_first = sym (append-nil q.transmitted);
    rest_waits = refl;
    counted = omega arith;
  }
  transmit_queued-Sent (suc count) (message ∷ waiting) q h =
      let s = transmit_queued-Sent count waiting (transmit_immediately message q) (omega arith) in
      record {
        sent_first = s.sent_first ∙ append_assoc q.transmitted (message ∷ []) (take count waiting);
        rest_waits = s.rest_waits;
        counted = omega (arith, s.counted);
      }

  -- With no more than the limit on their way, processPendingMessages hands on just as many of the
  -- messages that wait as the limit has room for, the longest waiting ones first and in their order;
  -- the others go on waiting, and the limit is kept.
  pub process_pending_messages_lem :
      (q : MessageQueue Message)
      → q.num_pending_responses ≤ q.num_max_messages
      → q.num_max_messages < size_mod
      → Sent
          (q.num_max_messages - q.num_pending_responses)
          q.message_queue
          q
          (process_pending_messages q)
        × ((process_pending_messages q).num_pending_responses ≤ q.num_max_messages)
  unfolding process_pending_messages
  process_pending_messages_lem q h b =
      elim (Bool-cases (leb q.num_max_messages q.num_pending_responses)) [
        | inl full ↦
            let no_room : q.num_max_messages - q.num_pending_responses ≡ 0 = ground arith in
            let same : Sent 0 q.message_queue q q = record {
              sent_first = sym (append-nil q.transmitted);
              rest_waits = refl;
              counted = omega arith;
            } in
            rw full (subst (λ n. Sent n q.message_queue q q) (sym no_room) same, h)
        | inr room ↦
            let s =
              transmit_queued-Sent (q.num_max_messages - q.num_pending_responses) q.message_queue
                (record q { done_list = [] }) (omega arith) in
            rw room (
              record { sent_first = s.sent_first; rest_waits = s.rest_waits; counted = s.counted },
              omega (arith, s.counted),
            )
      ]

  transmit-limit :
      (m : Message) (q : MessageQueue Message)
      → q.num_pending_responses ≤ q.num_max_messages
      → q.num_max_messages < size_mod
      → ((transmit m q).num_pending_responses ≤ q.num_max_messages)
        × ((transmit m q).num_max_messages ≡ q.num_max_messages)
  unfolding transmit transmit_immediately
  transmit-limit m q h b = (ground arith, ground arith)

  process_pending_messages-max :
      (q : MessageQueue Message)
      → (process_pending_messages q).num_max_messages ≡ q.num_max_messages
  unfolding process_pending_messages transmit_queued transmit_immediately
  process_pending_messages-max q =
      elim (Bool-cases (leb q.num_max_messages q.num_pending_responses)) [
        | inl full ↦ rw full refl
        | inr room ↦ rw room (
            loop (q.num_max_messages - q.num_pending_responses) q.message_queue
              (record q { done_list = [] }))
      ]
    where
      loop :
          (count : ℕ) (waiting : List Message) (q : MessageQueue Message)
          → (transmit_queued count waiting q).num_max_messages ≡ q.num_max_messages
      loop zero waiting q = refl
      loop (suc count) [] q = refl
      loop (suc count) (m ∷ waiting) q = loop count waiting (transmit_immediately m q)

  -- No message is done that is not on its way.
  abbrev pub Allowed : List (Event Message) → MessageQueue Message → Type 0
  Allowed [] q = Unit {0}
  Allowed (transmits m ∷ rest) q = Allowed rest (transmit m q)
  Allowed (is_done m ∷ rest) q = (0 < q.num_pending_responses) × Allowed rest (done_with m q)
  Allowed (processes ∷ rest) q = Allowed rest (process_pending_messages q)

  unfoldable pub run : List (Event Message) → MessageQueue Message → MessageQueue Message
  run [] q = q
  run (transmits m ∷ rest) q = run rest (transmit m q)
  run (is_done m ∷ rest) q = run rest (done_with m q)
  run (processes ∷ rest) q = run rest (process_pending_messages q)

  -- Whatever is transmitted and done and however often the queue is gone through, never more messages
  -- are on their way than the limit, as long as no message is done that is not on its way.
  pub run-limit :
      (events : List (Event Message)) (q : MessageQueue Message)
      → q.num_pending_responses ≤ q.num_max_messages
      → q.num_max_messages < size_mod
      → Allowed events q
      → (run events q).num_pending_responses ≤ q.num_max_messages
  unfolding run done_with
  run-limit [] q h b allowed = h
  run-limit (transmits m ∷ rest) q h b allowed =
      let (limit, same) = transmit-limit m q h b in
      omega (
        arith,
        same,
        run-limit rest (transmit m q) (omega (arith, same)) (omega (arith, same)) allowed,
      )
  run-limit (is_done m ∷ rest) q h b allowed =
      run-limit rest (done_with m q) (omega (arith, allowed.0)) b allowed.1
  run-limit (processes ∷ rest) q h b allowed =
      let (_, limit) = process_pending_messages_lem q h b in
      let same = process_pending_messages-max q in
      omega (
        arith,
        same,
        run-limit rest (process_pending_messages q) (omega (arith, same)) (omega (arith, same))
            allowed,
      )
