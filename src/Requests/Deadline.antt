-- ===== src/Requests/Deadline.antt =====
-- When an answered request times out.
use mohpc.Base.{ℕ, ◌+◌, ◌-◌, ◌≡◌, ◌≤◌, arith, true, some}
use mohpc.Requests.{Protocol, Handler, handle_new_request, handle_current, handle_incoming}

module _ (p : Protocol) where
  open p use {Request, Input}

  -- An answer that the request goes on after, at time `first`, and a second one at `second`: after the
  -- second the request has its whole duration again, and moreover the time from its start to the
  -- first answer.
  pub handle_incoming-drifts :
      (h : Handler Request) (r r' : Request) (input : Input) (first second : ℕ)
      → h.request ≡ some r
      → p.is_this_request r input ≡ true
      → p.process r input ≡ some r'
      → p.same r' r ≡ true
      → h.start_time ≤ h.timeout_time
      → h.start_time ≤ first
      → first ≤ second
      → (handle_incoming p second input (handle_incoming p first input h)).timeout_time
        ≡ second + (h.timeout_time - h.start_time) + (first - h.start_time)
  unfolding handle_incoming handle_current handle_new_request
  handle_incoming-drifts h r r' input first second active mine process same sound a b =
      rw (active, mine, process, same) (rw (mine, process, same) (omega arith))
