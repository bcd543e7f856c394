-- ===== src/Time/Flow.antt =====
-- The simulated time does not flow backwards, and the server's time does not either.
use mohpc.Base.{
  ℕ, ◌+◌, ◌-◌, ◌*◌, ◌/◌, ◌≤◌, ◌<◌, ◌≡◌, ◌⊎◌, inl, inr, refl, sym, subst, arith, Bool, true, false,
  Bool-cases, ltb, if◌then◌else◌, Result, ok, err, sub_u32, u32_mod,
}
use mohpc.Base.Int.{ℤ, pos, pos_part, ◌+ℤ◌, ◌-ℤ◌, ltb_ℤ, ◌≤ℤ◌}
use mohpc.Time.{
  ClientTime, Extrapolation, no_extrapolation, extrapolate, catchup, TimeError,
  server_time_went_backward, of_net, of_ms, get_time_delta, drift, adjust_time_delta, advance,
  set_time,
}

≤ℤ-refl : (a : ℤ) → a ≤ℤ a
≤ℤ-refl a = omega arith

≤ℤ-trans : (a b c : ℤ) → a ≤ℤ b → b ≤ℤ c → a ≤ℤ c
≤ℤ-trans a b c h k = omega (arith, h, k)

later-rises : (n o : ℤ) → o ≤ℤ (if ltb_ℤ n o then o else n)
later-rises n o = elim (Bool-cases (ltb_ℤ n o)) [
  | inl earlier ↦ rw earlier (≤ℤ-refl o)
  | inr later ↦ rw later (ground (arith, later))
]

advance-rises :
    (new : ℤ) (remote : ℕ) (c : ClientTime)
    → c.old_simulated ≤ℤ (advance new remote c).old_simulated
unfolding advance
advance-rises new remote c =
    later-rises (of_net c.server_start_time +ℤ (new -ℤ c.real_time_start) -ℤ of_ms c.time_nudge)
      c.old_simulated

-- The simulated time starts anew at the server's time, now.
abbrev pub IsReset : ℤ → ℕ → ClientTime → Type 0
IsReset new remote c =
    (c.old_simulated ≡ of_net remote) × (c.server_start_time ≡ remote) × (c.real_time_start ≡ new)

-- What an adjustment leaves alone, unless it resets.
abbrev Adjusts : ℤ → ℕ → ClientTime → ClientTime → Type 0
Adjusts new remote c d =
    (d.frame_server_time ≡ c.frame_server_time)
    × (d.old_frame_server_time ≡ c.old_frame_server_time)
    × (d.old_simulated ≡ d.simulated_server_time)
    × ((d.old_simulated ≡ c.old_simulated) ⊎ IsReset new remote d)

drift-Adjusts :
    (new : ℤ) (remote : ℕ) (c : ClientTime) (e : Extrapolation)
    → c.old_simulated ≡ c.simulated_server_time
    → Adjusts new remote c (drift c e)
drift-Adjusts new remote c no_extrapolation h = (refl, refl, h, inl refl)
drift-Adjusts new remote c extrapolate h = (refl, refl, h, inl refl)
drift-Adjusts new remote c catchup h = (refl, refl, h, inl refl)

adjust_time_delta-Adjusts :
    (new : ℤ) (remote : ℕ) (c : ClientTime)
    → c.old_simulated ≡ c.simulated_server_time
    → Adjusts new remote c (adjust_time_delta new remote c)
unfolding adjust_time_delta
adjust_time_delta-Adjusts new remote c h =
    let delta = get_time_delta c.simulated_server_time remote in
    elim (Bool-cases (ltb_ℤ (pos 500000000) delta)) [
      | inl far ↦ rw far (refl, refl, refl, inr (refl, refl, refl))
      | inr near ↦ elim (Bool-cases (ltb_ℤ (pos 100000000) delta)) [
        | inl fast ↦ rw (near, fast) (refl, refl, h, inl refl)
        | inr slow ↦ rw (near, slow) (drift-Adjusts new remote c c.extrapolation h)
      ]
    ]

-- What setTime does: it throws, or the times go on.
abbrev pub Flows : ℤ → ℕ → ClientTime → Result TimeError ClientTime → Type 0
Flows new remote c (err e) =
    (remote < c.frame_server_time) × (e ≡ server_time_went_backward c.frame_server_time remote)
Flows new remote c (ok d) =
    (c.frame_server_time ≤ remote)
    × (d.frame_server_time ≡ remote)
    × (d.old_frame_server_time ≡ c.frame_server_time)
    × (d.old_simulated ≡ d.simulated_server_time)
    × ((c.old_simulated ≤ℤ d.old_simulated) ⊎ IsReset new remote d)

advance-same :
    (new : ℤ) (remote : ℕ) (c : ClientTime)
    → (advance new remote c).old_simulated ≡ (advance new remote c).simulated_server_time
unfolding advance
advance-same new remote c = refl

adjusted-Flows :
    (new : ℤ) (remote : ℕ) (c d : ClientTime)
    → c.frame_server_time ≤ remote
    → Adjusts new remote (advance new remote c) d
    → Flows new remote c (ok d)
unfolding advance
adjusted-Flows new remote c d on (frame, old_frame, same, simulated) = (
  on,
  frame,
  old_frame,
  same,
  elim simulated [
    | inl kept ↦ inl (subst (λ t. c.old_simulated ≤ℤ t) (sym kept) (advance-rises new remote c))
    | inr anew ↦ inr anew
  ],
)

-- setTime throws exactly if the server time is below the last one, which it names. Otherwise the
-- server time and the last one are kept, the simulated time is remembered, and it is not below the
-- one remembered before, unless the adjustment started it anew at the server time, from this
-- moment of the local clock.
pub set_time-Flows :
    (new : ℤ) (remote : ℕ) (adjust : Bool) (c : ClientTime)
    → Flows new remote c (set_time new remote adjust c)
unfolding set_time
set_time-Flows new remote adjust c = elim (Bool-cases (ltb remote c.frame_server_time)) [
  | inl back ↦ rw back (ground (arith, back), refl)
  | inr on ↦ rw on (go adjust (ground (arith, on)))
]
  where
    go :
        (adjust : Bool)
        → c.frame_server_time ≤ remote
        → Flows new remote c (
            ok (
              if adjust
              then adjust_time_delta new remote (advance new remote c)
              else advance new remote c))
    go true h =
        adjusted-Flows new remote c (adjust_time_delta new remote (advance new remote c)) h
          (adjust_time_delta-Adjusts new remote (advance new remote c) (advance-same new remote c))
    go false h = (h, refl, refl, refl, inl (advance-rises new remote c))

delta-behind :
    (s remote : ℕ)
    → s ≤ remote * 1000000
    → get_time_delta (pos s) remote ≡ pos (remote * 1000000 - s)
unfolding get_time_delta ◌-ℤ◌
delta-behind s remote h = ground (arith, h)

part-fast : (d : ℕ) → 102000000 ≤ d → pos_part (pos d -ℤ pos 100000000) ≡ d - 100000000
unfolding ◌-ℤ◌
part-fast d h = ground (arith, h)

steps-back :
    (d start : ℕ)
    → 102000000 ≤ d
    → d ≤ 500000000
    → 200 ≤ start
    → start < u32_mod
    → sub_u32 start ((d - 100000000) / 2 / 1000000) < start
steps-back d start h k low short = ground (arith, h, k, low, short)

quick-adjust :
    (real : ℤ) (s remote : ℕ) (c : ClientTime)
    → c.simulated_server_time ≡ pos s
    → s + 102000000 ≤ remote * 1000000
    → remote * 1000000 ≤ s + 500000000
    → 200 ≤ c.server_start_time
    → c.server_start_time < u32_mod
    → (start : ℕ) × (start < c.server_start_time)
      × (adjust_time_delta real remote c ≡ record c { server_start_time = start })
unfolding adjust_time_delta
quick-adjust real s remote c is_s behind near start short =
    let delta = delta-behind s remote (omega (arith, behind)) in
    let no_reset : ltb_ℤ (pos 500000000) (pos (remote * 1000000 - s)) ≡ false =
      ground (arith, near, behind) in
    let fast : ltb_ℤ (pos 100000000) (pos (remote * 1000000 - s)) ≡ true = ground (arith, behind) in
    let part = part-fast (remote * 1000000 - s) (omega (arith, behind)) in
    (
      sub_u32 c.server_start_time ((remote * 1000000 - s - 100000000) / 2 / 1000000),
      steps-back (remote * 1000000 - s) c.server_start_time (omega (arith, behind))
          (omega (arith, near)) start short,
      rw (is_s, delta, no_reset, fast, part) refl,
    )

-- From a lower start the time is lower, by as much.
nudged-lower : (s t : ℕ) (x n : ℤ) → s < t → ltb_ℤ (of_net s +ℤ x -ℤ n) (of_net t +ℤ x -ℤ n) ≡ true
unfolding ◌+ℤ◌ ◌-ℤ◌
nudged-lower s t x n h = ground (arith, h)

later-lower :
    (n m o : ℤ)
    → ltb_ℤ n m ≡ true
    → ltb_ℤ o (if ltb_ℤ m o then o else m) ≡ true
    → ltb_ℤ (if ltb_ℤ n o then o else n) (if ltb_ℤ m o then o else m) ≡ true
later-lower n m o h k = elim (Bool-cases (ltb_ℤ n o)) [
  | inl back ↦ rw back k
  | inr on ↦ elim (Bool-cases (ltb_ℤ m o)) [
    | inl kept ↦ ground (arith, h, k, on, kept)
    | inr moved ↦ rw (on, moved) h
  ]
]

-- The quick adjustment goes the wrong way for a client that lags: if the simulated time is 102 to
-- 500 milliseconds behind the server time, and the start time of the server at least 200 and of 32
-- bits, then the adjustment sets that start time lower and leaves the local one. At any local time
-- at which the simulated time would move on without the adjustment, setTime, before it adjusts
-- again, makes it strictly lower than that with the adjustment.
pub adjust_time_delta-lags :
    (real : ℤ) (s remote : ℕ) (c : ClientTime) (new : ℤ) (next : ℕ)
    → c.simulated_server_time ≡ pos s
    → s + 102000000 ≤ remote * 1000000
    → remote * 1000000 ≤ s + 500000000
    → 200 ≤ c.server_start_time
    → c.server_start_time < u32_mod
    → ltb_ℤ c.old_simulated (advance new next c).simulated_server_time ≡ true
    → ((adjust_time_delta real remote c).server_start_time < c.server_start_time)
      × ((adjust_time_delta real remote c).real_time_start ≡ c.real_time_start)
      × (ltb_ℤ
            (advance new next (adjust_time_delta real remote c)).simulated_server_time
            (advance new next c).simulated_server_time
          ≡ true)
unfolding advance
adjust_time_delta-lags real s remote c new next is_s behind near start short moves =
    let (start', lower, adjusted) = quick-adjust real s remote c is_s behind near start short in
    rw adjusted (
      lower,
      refl,
      later-lower (of_net start' +ℤ (new -ℤ c.real_time_start) -ℤ of_ms c.time_nudge)
          (of_net c.server_start_time +ℤ (new -ℤ c.real_time_start) -ℤ of_ms c.time_nudge)
          c.old_simulated
          (nudged-lower start' c.server_start_time (new -ℤ c.real_time_start) (of_ms c.time_nudge)
            lower)
          moves,
    )
