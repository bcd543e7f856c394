-- ===== src/Time/Tests.antt =====
-- A concrete time, and the theorems on it.
use mohpc.Base.{ℕ, ◌≡◌, ◌<◌, refl, arith, Bool, true, false, Result, ok, err}
use mohpc.Base.Int.{pos, negsuc, ltb_ℤ}
use mohpc.Time.{
  ClientTime, new_time, no_extrapolation, set_time, adjust_time_delta, advance, init_remote_time,
  set_start_time, set_remote_start_time, set_time_nudge, set_delta_time, get_time_delta,
  server_time_went_backward,
}
use mohpc.Time.Flow.{Flows, set_time-Flows, adjust_time_delta-lags}

-- The client starts at 3 s when the server is at 10 s.
abbrev started : ClientTime
started = record new_time {
  real_time_start = pos 3000000000;
  server_start_time = 10000;
  frame_server_time = 10000;
}

-- Half a second later the server's 10.7 s comes in.
abbrev ahead : ClientTime
ahead = record started { simulated_server_time = pos 10500000000; old_simulated = pos 10500000000 }

set_run :
    set_time (pos 3500000000) 10550 false started
    ≡ ok (record started {
      simulated_server_time = pos 10500000000;
      old_simulated = pos 10500000000;
      frame_server_time = 10550;
      old_frame_server_time = 10000;
      extrapolation = mohpc.Time.catchup;
    })
unfolding set_time mohpc.Base.Int.◌+ℤ◌ mohpc.Base.Int.◌-ℤ◌
set_run = refl

back_run : set_time (pos 3500000000) 9000 true started ≡ err (server_time_went_backward 10000 9000)
unfolding set_time
back_run = refl

set_time-Flows_example :
    Flows (pos 3500000000) 10550 started (set_time (pos 3500000000) 10550 true started)
set_time-Flows_example = set_time-Flows (pos 3500000000) 10550 true started

-- A millisecond later, with the server's 10.71 s.
moves_run :
    ltb_ℤ ahead.old_simulated (advance (pos 3501000000) 10710 ahead).simulated_server_time ≡ true
unfolding advance mohpc.Base.Int.◌-ℤ◌ mohpc.Base.Int.◌+ℤ◌
moves_run = refl

adjust_time_delta-lags_example :
    ((adjust_time_delta (pos 3500000000) 10700 ahead).server_start_time < 10000)
    × ((adjust_time_delta (pos 3500000000) 10700 ahead).real_time_start ≡ pos 3000000000)
    × (ltb_ℤ
          (advance
            (pos 3501000000)
            10710
            (adjust_time_delta (pos 3500000000) 10700 ahead)).simulated_server_time
          (advance (pos 3501000000) 10710 ahead).simulated_server_time
        ≡ true)
adjust_time_delta-lags_example =
    adjust_time_delta-lags (pos 3500000000) 10500000000 10700 ahead (pos 3501000000) 10710 refl
      (omega arith) (omega arith) (omega arith) (omega arith) moves_run

-- It is 50 ms further behind then.
lags_run : (adjust_time_delta (pos 3500000000) 10700 ahead).server_start_time ≡ 9950
unfolding adjust_time_delta mohpc.Base.Int.◌-ℤ◌
lags_run = refl

nudged_run :
    (set_time_nudge (negsuc 4) (
      set_delta_time
        (pos 50)
        (set_start_time (pos 1) (set_remote_start_time 2 new_time)))).server_start_time
    ≡ 2
unfolding set_time_nudge set_delta_time set_start_time set_remote_start_time
nudged_run = refl

init_run : (init_remote_time (pos 4000000000) 10000 started).simulated_server_time ≡ pos 11000000000
unfolding init_remote_time mohpc.Base.Int.◌+ℤ◌ mohpc.Base.Int.◌-ℤ◌
init_run = refl
