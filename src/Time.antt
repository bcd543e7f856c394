-- ===== src/Time.antt =====
-- `ClientTime` of mohpc-lib/Network/Client/Time.cpp. A time of the local clock is a signed number of
-- nanoseconds; a time of the server is a number of 32 bits, of milliseconds. That the 64 bits of a local
-- time may overflow, after 292 years, is left out, and so is the delta time as a floating point number.
pub mod Flow
mod Tests
use mohpc.Base.{
  ℕ, suc, ◌*◌, ◌/◌, Bool, true, false, not, ltb, leb, if◌then◌else◌, Result, ok, err, add_u32,
  sub_u32,
}
use mohpc.Base.Int.{ℤ, pos, negsuc, pos_part, ◌+ℤ◌, ◌-ℤ◌, ltb_ℤ}

pub data Extrapolation : Type 0 where
  no_extrapolation : Extrapolation
  extrapolate : Extrapolation
  catchup : Extrapolation

pub record ClientTime : Type 0 where
  pub real_time_start : ℤ
  pub simulated_server_time : ℤ
  pub old_simulated : ℤ
  pub server_delta_time : ℤ
  pub server_start_time : ℕ
  pub frame_server_time : ℕ
  pub old_frame_server_time : ℕ
  pub time_nudge : ℤ
  pub extrapolation : Extrapolation

-- `ServerTimeWentBackward`
pub data TimeError : Type 0 where
  server_time_went_backward : ℕ → ℕ → TimeError

-- The constructor
abbrev pub new_time : ClientTime
new_time = record {
  real_time_start = pos 0;
  simulated_server_time = pos 0;
  old_simulated = pos 0;
  server_delta_time = pos 0;
  server_start_time = 0;
  frame_server_time = 0;
  old_frame_server_time = 0;
  time_nudge = pos 0;
  extrapolation = no_extrapolation;
}

-- `time_cast<tickTime_t>` of a server time, and a count of milliseconds as nanoseconds
abbrev pub of_net : ℕ → ℤ
of_net t = pos (t * 1000000)

-- `milliseconds` of a signed number
abbrev pub of_ms : ℤ → ℤ
of_ms (pos n) = pos (n * 1000000)
of_ms (negsuc n) = pos 0 -ℤ pos (suc n * 1000000)

unfoldable pub set_time_nudge : ℤ → ClientTime → ClientTime
set_time_nudge nudge c = record c { time_nudge = nudge }

unfoldable pub init_remote_time : ℤ → ℕ → ClientTime → ClientTime
init_remote_time current remote c = record c {
  server_start_time = remote;
  simulated_server_time = (current -ℤ c.real_time_start) +ℤ of_net remote;
}

unfoldable pub set_start_time : ℤ → ClientTime → ClientTime
set_start_time current c = record c { real_time_start = current }

unfoldable pub set_remote_start_time : ℕ → ClientTime → ClientTime
set_remote_start_time remote c = record c { server_start_time = remote }

unfoldable pub set_delta_time : ℤ → ClientTime → ClientTime
set_delta_time delta c = record c { server_delta_time = delta }

-- `getTimeDelta`
unfoldable pub get_time_delta : ℤ → ℕ → ℤ
get_time_delta time remote =
    if ltb_ℤ (of_net remote) time then time -ℤ of_net remote else of_net remote -ℤ time

-- The last case of `adjustTimeDelta`
abbrev pub drift : ClientTime → Extrapolation → ClientTime
drift c no_extrapolation = c
drift c extrapolate = record c {
  extrapolation = no_extrapolation;
  server_start_time = sub_u32 c.server_start_time 2;
}
drift c catchup = record c { server_start_time = add_u32 c.server_start_time 1 }

-- `adjustTimeDelta`
unfoldable pub adjust_time_delta : ℤ → ℕ → ClientTime → ClientTime
unfolding get_time_delta
adjust_time_delta real remote c =
    let delta = get_time_delta c.simulated_server_time remote in
    if ltb_ℤ (pos 500000000) delta
    then record c {
      real_time_start = real;
      server_start_time = remote;
      simulated_server_time = of_net remote;
      old_simulated = of_net remote;
    }
    else if ltb_ℤ (pos 100000000) delta
    then record c {
      server_start_time =
          sub_u32 c.server_start_time (pos_part (delta -ℤ pos 100000000) / 2 / 1000000);
    }
    else drift c c.extrapolation

-- Whether the simulated time is slowed down or catches up
abbrev pub pace : ℤ → ℕ → Extrapolation → Extrapolation
pace simulated remote before =
    if not (ltb_ℤ (simulated +ℤ pos 5000000) (of_net remote))
    then extrapolate
    else if ltb_ℤ simulated (of_net remote +ℤ pos 5000000)
    then catchup
    else before

-- `setTime`, once the server time is accepted
unfoldable pub advance : ℤ → ℕ → ClientTime → ClientTime
advance new remote c =
    let simulated = of_net c.server_start_time +ℤ (new -ℤ c.real_time_start) in
    let nudged = simulated -ℤ of_ms c.time_nudge in
    let time = if ltb_ℤ nudged c.old_simulated then c.old_simulated else nudged in
    record c {
      old_frame_server_time = c.frame_server_time;
      frame_server_time = remote;
      simulated_server_time = time;
      old_simulated = time;
      extrapolation = pace simulated remote c.extrapolation;
    }

-- `setTime`
unfoldable pub set_time : ℤ → ℕ → Bool → ClientTime → Result TimeError ClientTime
unfolding advance adjust_time_delta
set_time new remote adjust c =
    if ltb remote c.frame_server_time
    then err (server_time_went_backward c.frame_server_time remote)
    else let c' = advance new remote c in
      ok (if adjust then adjust_time_delta new remote c' else c')
