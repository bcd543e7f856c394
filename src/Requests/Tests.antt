-- ===== src/Requests/Tests.antt =====
-- The handler with concrete requests.
use mohpc.Base.{
  ℕ, ◌+◌, ◌-◌, ◌≡◌, refl, arith, List, [], ◌∷◌, ltb, ◌==◌, if◌then◌else◌, Option, none, some,
}
use mohpc.Requests.{Protocol, Handler, handle_incoming, process_time_out}
use mohpc.Requests.Queue.{Event, sends, hears, checks_timeout, run, step, run-IsBusy}
use mohpc.Requests.Deadline.{handle_incoming-drifts}

-- A request is a number: one of 10 or more has no answer, and an answer is the number of its request.
-- Request 5 goes on after an answer.
abbrev goes_on : ℕ → ℕ → Option ℕ
goes_on r input = if r == 5 then some r else none

abbrev numbers : Protocol
numbers = record {
  Request = ℕ;
  Input = ℕ;
  same = ◌==◌;
  is_this_request = ◌==◌;
  process = goes_on;
  timed_out = λ r. none;
  must_process = λ r. ltb r 10;
  override_timeout_time = λ r. none;
  time_out_delay = λ r. 0;
  deferred_time = λ r. 0;
  generate_output = λ r. r ∷ [];
}

abbrev idle : Handler ℕ
idle = record {
  request = none;
  pending = [];
  start_time = 0;
  timeout_time = 0;
  defer_time = 0;
  sent = [];
}

abbrev waiting : Handler ℕ
waiting = record idle { pending = (12, 100) ∷ (3, 200) ∷ (4, 300) ∷ [] }

-- Request 5 that started at 100 and times out at 600
abbrev active : Handler ℕ
active = record idle { request = some 5; start_time = 100; timeout_time = 600 }

abbrev events : List (ℕ × Event numbers)
events =
    (10, sends 3 50) ∷ (20, sends 4 50) ∷ (30, hears 3) ∷ (40, hears 4) ∷ (50, checks_timeout) ∷ []

run-IsBusy_example : (run numbers events idle).pending ≡ []
unfolding run step process_time_out handle_incoming
run-IsBusy_example = run-IsBusy numbers events idle (λ _. refl) refl

handle_incoming-drifts_example :
    (handle_incoming numbers 400 5 (handle_incoming numbers 300 5 active)).timeout_time
    ≡ 400 + (600 - 100) + (300 - 100)
handle_incoming-drifts_example =
    handle_incoming-drifts numbers active 5 5 5 300 400 refl refl refl refl (omega arith)
      (omega arith) (omega arith)
