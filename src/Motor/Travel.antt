-- ===== src/Motor/Travel.antt =====
-- gate-core/src/motor.rs: how far a leaf travels, and the run time that `run_time` asks for.
use gate_link.Prelude.{
  ℕ, zero, suc, ◌+◌, ◌-◌, ◌*◌, ◌/◌, ◌^◌, ◌≤◌, ◌<◌, ◌≡◌, ◌↔◌, max, u64, ap, none, some, arith,
}
use gate_link.Time.{Ticks}
use gate_link.Motor.{
  Direction, opening, closing, running, Motor, full_duration, remaining, run_time, travelled,
  moved_to, stop,
}
use native.Mathlib.Nat.{div-le_of_le-mul, le-div_iff_mul-le, mod-eq_of_lt}

abbrev pub end_of : Direction → ℕ
end_of opening = 255
end_of closing = 0

pub remaining-eq-zero :
    (m : Motor) (d : Direction) → m.position ≤ 255 → remaining m d ≡ 0 → m.position ≡ end_of d
unfolding remaining
remaining-eq-zero m opening h e = omega arith
remaining-eq-zero m closing h e = e

pub remaining-le : (m : Motor) (d : Direction) → m.position ≤ 255 → remaining m d ≤ 255
unfolding remaining
remaining-le m opening h = omega arith
remaining-le m closing h = h

moved_to-end_of :
    (m : Motor) (d : Direction) (t : ℕ)
    → m.position ≤ 255
    → remaining m d ≤ t
    → moved_to m.position d t ≡ end_of d
unfolding moved_to remaining
moved_to-end_of m opening t h k = omega arith
moved_to-end_of m closing t h k = omega arith

-- `o` milliseconds on top of the rounded-down share of `f` make up for the rounding.
overrun_covers : (f r o e : ℕ) → 1 ≤ o → r ≤ 255 → f * r / 255 + o ≤ e → r ≤ e * 255 / max f 1
overrun_covers f r o e ho hr h =
    (le-div_iff_mul-le {x = r} {y = e * 255} (omega arith)).1 (grind arith)

share-le : (f r : ℕ) → r ≤ 255 → f * r / 255 ≤ f
share-le f r h = div-le_of_le-mul 255 (grind arith)

module _ ⦃ticks : Ticks⦄ where
  abbrev pub overrun_millis : Motor → ℕ
  overrun_millis m = ticks.as_millis m.end_stop_overrun

  -- The timing of a motor: no product of a run's milliseconds and 255 wraps, in either direction,
  -- and the overrun is at least a millisecond.
  pub record IsTimed (m : Motor) : Type 0 where
    pub open_fits : (ticks.as_millis m.timing.open_duration + overrun_millis m + 1) * 255 < 2 ^ 64
    pub close_fits : (ticks.as_millis m.timing.close_duration + overrun_millis m + 1) * 255 < 2 ^ 64
    pub overruns : 1 ≤ overrun_millis m

  pub full_fits :
      {m : Motor} (d : Direction)
      → IsTimed m
      → (ticks.as_millis (full_duration m d) + overrun_millis m + 1) * 255 < 2 ^ 64
  unfolding full_duration
  full_fits opening t = t.open_fits
  full_fits closing t = t.close_fits

  pub as_millis-le : (s t : ℕ) → s ≤ t → ticks.as_millis s ≤ ticks.as_millis t
  as_millis-le s t h =
      let whole : s + (t - s) ≡ t = omega arith in
      omega (arith, ticks.add-as_millis-le s (t - s), ap ticks.as_millis whole)

  pub no_wrap : (f r : ℕ) → r ≤ 255 → f * 255 < 2 ^ 64 → u64 (f * r) ≡ f * r
  no_wrap f r h k = mod-eq_of_lt (grind arith)

  run_time_least :
      (m : Motor) (d : Direction) {rt : ℕ}
      → m.position ≤ 255
      → IsTimed m
      → run_time m d ≡ some rt
      → ticks.as_millis (full_duration m d) * remaining m d / 255 + 1 ≤ ticks.as_millis rt
  unfolding run_time
  run_time_least m d {rt} h t e =
      let full = ticks.as_millis (full_duration m d) in
      let share = full * remaining m d / 255 in
      ground (
        arith,
        no_wrap full (remaining m d) (remaining-le m d h) (omega (arith, full_fits d t)),
        ticks.as_millis-from_millis share,
        ticks.add-as_millis-le (ticks.from_millis share) m.end_stop_overrun,
        t.overruns,
      )

  -- A leaf that runs for exactly that time stays in the range of the arithmetic.
  pub run_time_fits :
      (m : Motor) (d : Direction) {rt : ℕ}
      → m.position ≤ 255
      → IsTimed m
      → run_time m d ≡ some rt
      → ticks.as_millis rt * 255 < 2 ^ 64
  unfolding run_time
  run_time_fits m d {rt} h t e =
      let full = ticks.as_millis (full_duration m d) in
      let share = full * remaining m d / 255 in
      ground (
        arith,
        no_wrap full (remaining m d) (remaining-le m d h) (omega (arith, full_fits d t)),
        share-le full (remaining m d) (remaining-le m d h),
        ticks.as_millis-from_millis share,
        ticks.as_millis-add-le (ticks.from_millis share) m.end_stop_overrun,
        full_fits d t,
      )

  millis-pos : (o : ℕ) → 1 ≤ ticks.as_millis o → 0 < o
  millis-pos zero h = absurd (omega (arith, ticks.add-as_millis-le 0 0))
  millis-pos (suc o) h = omega arith

  pub run_time-pos :
      (m : Motor) (d : Direction) {rt : ℕ} → IsTimed m → run_time m d ≡ some rt → 0 < rt
  unfolding run_time
  run_time-pos m d {rt} t e = ground (arith, millis-pos m.end_stop_overrun t.overruns)

  travelled-run_time :
      (m : Motor) (d : Direction) (since now : ℕ) {rt : ℕ}
      → m.position ≤ 255
      → IsTimed m
      → run_time m d ≡ some rt
      → since + rt ≤ now
      → ticks.as_millis (now - since) * 255 < 2 ^ 64
      → remaining m d ≤ travelled m d since now
  unfolding travelled
  travelled-run_time m d since now {rt} h t e long fits =
      let full = ticks.as_millis (full_duration m d) in
      let elapsed = ticks.as_millis (now - since) in
      rw (mod-eq_of_lt fits) (
        omega (
          arith,
          remaining-le m d h,
          overrun_covers full (remaining m d) 1 elapsed (omega arith) (remaining-le m d h) (
              omega (arith, run_time_least m d h t e, as_millis-le rt (now - since) (omega arith))),
        ))

  -- A leaf that has run for at least the time that `run_time` asked for is taken to be at its end
  -- when it is stopped: fully open after opening, fully closed after closing. The end-stop overrun
  -- of a millisecond or more makes up for the two divisions that round down.
  pub stop-run_time :
      (m : Motor) (d : Direction) (since now : ℕ) {rt : ℕ}
      → m.position ≤ 255
      → IsTimed m
      → run_time m d ≡ some rt
      → m.state ≡ running d since
      → since + rt ≤ now
      → ticks.as_millis (now - since) * 255 < 2 ^ 64
      → (stop now m).position ≡ end_of d
  unfolding stop
  stop-run_time m d since now h t e st long fits = rw st (
      moved_to-end_of m d (travelled m d since now) h
        (travelled-run_time m d since now h t e long fits))

  -- A leaf needs no run exactly when it is at the end already.
  pub run_time-none :
      (m : Motor) (d : Direction)
      → m.position ≤ 255
      → (run_time m d ≡ none) ↔ (m.position ≡ end_of d)
  unfolding run_time remaining
  run_time-none m opening h = ground arith
  run_time-none m closing h = ground arith
