-- ===== src/Requests.antt =====
-- `IncomingMessageHandler` of mohpc-lib/Utility/RequestHandler.cpp: one request at a time, the others
-- wait in a queue. Times are milliseconds of the steady clock; an operation reads it once, as `now`.
pub mod Queue
pub mod Deadline
mod Tests
use mohpc.Base.{
  ℕ, ◌+◌, ◌-◌, List, [], ◌∷◌, ◌++◌, Bool, true, false, not, ◌&&◌, ltb, leb, ◌==◌, if◌then◌else◌,
  Option, none, some, Result, ok, err,
}

-- `IRequestBase`: what the handler calls of a request. `same` compares two pointers to requests.
pub record Protocol : Type 1 where
  pub Request : Type 0
  pub Input : Type 0
  pub same : Request → Request → Bool
  pub is_this_request : Request → Input → Bool
  pub process : Request → Input → Option Request
  pub timed_out : Request → Option Request
  pub must_process : Request → Bool
  pub override_timeout_time : Request → Option ℕ
  pub time_out_delay : Request → ℕ
  pub deferred_time : Request → ℕ
  pub generate_output : Request → List ℕ

pub record Handler (Request : Type 0) : Type 0 where
  pub request : Option Request
  pub pending : List (Request × ℕ)
  pub start_time : ℕ
  pub timeout_time : ℕ
  pub defer_time : ℕ
  pub sent : List (List ℕ)

-- `sendData` through a null pointer.
pub data RequestError : Type 0 where
  null_request : RequestError

module _ (p : Protocol) where
  open p use {Request, Input}

  -- Output of no bytes is not sent.
  abbrev pub send_bytes : List ℕ → Handler Request → Handler Request
  send_bytes [] h = h
  send_bytes (b ∷ bytes) h = record h { sent = h.sent ++ (b ∷ bytes) ∷ [] }

  -- `sendData`
  unfoldable pub send_data : Request → Handler Request → Handler Request
  send_data r h = send_bytes (p.generate_output r) h

  -- `setDeferredStart`
  unfoldable pub set_deferred_start : Request → Handler Request → Handler Request
  unfolding send_data
  set_deferred_start r h =
      if ltb 0 (p.deferred_time r)
      then record h { defer_time = h.start_time + p.deferred_time r }
      else send_data r (record h { defer_time = 0 })

  -- How long a request may take.
  abbrev pub duration : Request → ℕ → Option ℕ → ℕ
  duration r timeout none = timeout + p.time_out_delay r
  duration r timeout (some time) = time

  -- `setRequestTimeout`
  unfoldable pub set_request_timeout : Request → ℕ → Handler Request → Handler Request
  set_request_timeout r timeout h =
      let time = duration r timeout (p.override_timeout_time r) in
      record h {
        timeout_time = if h.defer_time == 0 then h.start_time + time else h.defer_time + time;
      }

  -- `startRequest`
  unfoldable pub start_request : ℕ → Request → ℕ → Handler Request → Handler Request
  unfolding set_deferred_start set_request_timeout
  start_request now r timeout h =
      set_request_timeout r timeout (set_deferred_start r (record h { start_time = now }))

  -- `dequeRequest`, with the `sendRequest` of the request it takes: the queue is gone through up to a
  -- request that must be processed.
  unfoldable pub start_pending : ℕ → List (Request × ℕ) → Handler Request → Handler Request
  unfolding start_request
  start_pending now [] h = record h { pending = [] }
  start_pending now ((r, timeout) ∷ rest) h =
      let started = start_request now r timeout h in
      let later = start_pending now rest started in
      if p.must_process r then record started { request = some r; pending = rest } else later

  unfoldable pub deque_request : ℕ → Handler Request → Handler Request
  unfolding start_pending
  deque_request now h = start_pending now h.pending h

  -- `sendRequest` with an active request, or none
  unfoldable pub send_beside : ℕ → Request → ℕ → Handler Request → Option Request → Handler Request
  unfolding deque_request start_request
  send_beside now r timeout h (some active) = record h { pending = h.pending ++ (r, timeout) ∷ [] }
  send_beside now r timeout h none =
      let started = start_request now r timeout h in
      if p.must_process r then record started { request = some r } else deque_request now started

  -- `sendRequest`
  unfoldable pub send_request : ℕ → Request → ℕ → Handler Request → Handler Request
  unfolding send_beside
  send_request now r timeout h = send_beside now r timeout h h.request

  -- `handleNewRequest`
  unfoldable pub handle_new_request :
      ℕ → Option Request → Request → Bool → Handler Request → Handler Request
  unfolding send_request deque_request start_request
  handle_new_request now none current resend h = deque_request now (record h { request = none })
  handle_new_request now (some r) current resend h =
      let timeout = h.timeout_time - h.start_time in
      if not (p.same r current)
      then send_request now r timeout (record h { request = none })
      else if resend
      then start_request now r timeout h
      else h

  -- `handleIncoming` with an active request, or none
  unfoldable pub handle_current : ℕ → Input → Handler Request → Option Request → Handler Request
  unfolding handle_new_request
  handle_current now input h none = h
  handle_current now input h (some current) =
      if p.is_this_request current input
      then handle_new_request now (p.process current input) current false
          (record h { timeout_time = now + (h.timeout_time - h.start_time) })
      else h

  -- `handleIncoming`
  unfoldable pub handle_incoming : ℕ → Input → Handler Request → Handler Request
  unfolding handle_current
  handle_incoming now input h = handle_current now input h h.request

  -- `processTimeOut` with an active request, or none
  unfoldable pub time_out_current : ℕ → Handler Request → Option Request → Bool × Handler Request
  unfolding handle_new_request
  time_out_current now h none = (false, h)
  time_out_current now h (some current) =
      if not (h.timeout_time == h.start_time) && leb h.timeout_time now
      then (true, handle_new_request now (p.timed_out current) current true h)
      else (false, h)

  -- `processTimeOut`
  unfoldable pub process_time_out : ℕ → Handler Request → Bool × Handler Request
  unfolding time_out_current
  process_time_out now h = time_out_current now h h.request

  -- The data of a deferred request is sent.
  unfoldable pub send_deferred :
      Handler Request → Option Request → Result RequestError Bool × Handler Request
  unfolding send_data
  send_deferred h none = (err null_request, record h { defer_time = 0 })
  send_deferred h (some r) = (ok false, send_data r (record h { defer_time = 0 }))

  -- `processDeferred`
  unfoldable pub process_deferred : ℕ → Handler Request → Result RequestError Bool × Handler Request
  unfolding send_deferred
  process_deferred now h =
      if h.defer_time == 0
      then (ok false, h)
      else if ltb now h.defer_time
      then (ok true, h)
      else send_deferred h h.request
