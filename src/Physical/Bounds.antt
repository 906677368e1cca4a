-- ===== src/Physical/Bounds.antt =====
-- gate-core/src/motor.rs on the timing of src/physical/gate_config.rs: the products of the run times
-- and the travel, from the start of the gate task on.
use gate_link.Prelude.{
  ℕ, ◌+◌, ◌-◌, ◌*◌, ◌/◌, ◌≤◌, ◌≡◌, ap, refl, Bool, ◌==◌, if◌then◌else◌, min, max, Option, none,
  some, List, arith,
}
use native.Mathlib.Nat.{mod-eq_of_lt}
use gate_link.Time.{Ticks}
use gate_link.Motor.{Direction, Motor, new, idle, full_duration, remaining, run_time, travelled}
use gate_link.Motor.Travel.{no_wrap, full_fits, remaining-le, as_millis-le}
use gate_link.Controls.{Controls}
use gate_link.Gate.{Gate}
use gate_link.Gate.Progress.{IsFit}
use gate_link.Gate.Progress.Lateness.{Short}
use gate_link.Gate.World.{Event, run}
use gate_link.Gate.World.Course.{OnCourse, new-OnCourse}
use gate_link.Gate.World.Course.Runs.{run-OnCourse}
use gate_link.Physical.{MotorSettings, motor, boot}
use gate_link.Physical.Config
use gate_link.Physical.Config.{end_stop_overrun}
use gate_link.Physical.Safety.{Side, side_a, side_b, leaf}

module _ ⦃ticks : Ticks⦄ where
  -- The two leaves of the installation, from the positions that were restored.
  abbrev pub settings_a : ℕ → MotorSettings
  settings_a position = record { timing = Config.leaf_a; initial_position = position }

  abbrev pub settings_b : ℕ → MotorSettings
  settings_b position = record { timing = Config.leaf_b; initial_position = position }

  -- `run_time` and `travelled` in exact arithmetic.
  pub exact_run_time : Motor → Direction → Option ℕ
  exact_run_time m d =
      let full = ticks.as_millis (full_duration m d) in
      if remaining m d == 0
      then none
      else some (ticks.from_millis (full * remaining m d / 255) + m.end_stop_overrun)

  pub exact_travelled : Motor → Direction → ℕ → ℕ → ℕ
  exact_travelled m d since now =
      min (ticks.as_millis (now - since) * 255 / max (ticks.as_millis (full_duration m d)) 1) 255

  leaf_a-IsFit : (now position : ℕ) → position ≤ 255 → IsFit (motor (settings_a position) now)
  unfolding motor new
  leaf_a-IsFit now position h = record {
    timed = record {
      open_fits = omega (arith, ticks.as_millis-from_secs 15, ticks.as_millis-from_secs 1);
      close_fits = omega (arith, ticks.as_millis-from_secs 15, ticks.as_millis-from_secs 1);
      overruns = omega (arith, ticks.as_millis-from_secs 1);
    };
    in_range = h;
  }

  leaf_b-IsFit : (now position : ℕ) → position ≤ 255 → IsFit (motor (settings_b position) now)
  unfolding motor new
  leaf_b-IsFit now position h = record {
    timed = record {
      open_fits = omega (arith, ticks.as_millis-from_secs 15, ticks.as_millis-from_secs 1);
      close_fits = omega (arith, ticks.as_millis-from_secs 15, ticks.as_millis-from_secs 1);
      overruns = omega (arith, ticks.as_millis-from_secs 1);
    };
    in_range = h;
  }

  motor-idle : (settings : MotorSettings) (now : ℕ) → (motor settings now).state ≡ idle
  unfolding motor new
  motor-idle settings now = refl

  pub boot-OnCourse :
      (now : ℕ) (c : Controls) (pa pb : ℕ) (locked : Bool)
      → pa ≤ 255
      → pb ≤ 255
      → OnCourse (boot now c (settings_a pa) (settings_b pb) locked).gate
  unfolding boot
  boot-OnCourse now c pa pb locked ha hb =
      new-OnCourse c (motor (settings_a pa) now) (motor (settings_b pb) now) locked
        (leaf_a-IsFit now pa ha) (leaf_b-IsFit now pb hb) (motor-idle (settings_a pa) now)
        (motor-idle (settings_b pb) now)

  run_time-exact : (m : Motor) (d : Direction) → IsFit m → run_time m d ≡ exact_run_time m d
  unfolding run_time exact_run_time
  run_time-exact m d f =
      let full = ticks.as_millis (full_duration m d) in
      ap
        (λ (p : ℕ).
          if remaining m d == 0
          then none
          else some (ticks.from_millis (p / 255) + m.end_stop_overrun))
        (no_wrap full (remaining m d) (remaining-le m d f.in_range)
          (omega (arith, full_fits d f.timed)))

  travelled-exact :
      (m : Motor) (d : Direction) (since now : ℕ)
      → Short now
      → travelled m d since now ≡ exact_travelled m d since now
  unfolding travelled exact_travelled
  travelled-exact m d since now short =
      let full = max (ticks.as_millis (full_duration m d)) 1 in
      ap (λ (p : ℕ). min (p / full) 255)
        (mod-eq_of_lt (omega (arith, short, as_millis-le (now - since) now (omega arith))))

  leaf-IsFit : (side : Side) (g : Gate) → OnCourse g → IsFit (leaf side g)
  leaf-IsFit side_a g h = h.a_fit
  leaf-IsFit side_b g h = h.b_fit

  -- With the timing of the installation, from the start of the gate task on, as long as the
  -- milliseconds since the device started, times 255, fit in 64 bits: the position of each leaf is
  -- in the range of a u8, and no product in the computation of a run time or of the distance
  -- travelled wraps, so that both are what exact arithmetic gives, in both directions and from
  -- whichever start of the run.
  pub after-exact :
      (now : ℕ) (c : Controls) (pa pb : ℕ) (locked : Bool) (es : List Event) (side : Side)
      (d : Direction) (since : ℕ)
      → pa ≤ 255
      → pb ≤ 255
      → let w = run es (boot now c (settings_a pa) (settings_b pb) locked) in
        Short w.now
        → ((leaf side w.gate).position ≤ 255)
          × (run_time (leaf side w.gate) d ≡ exact_run_time (leaf side w.gate) d)
          × (travelled (leaf side w.gate) d since w.now
              ≡ exact_travelled (leaf side w.gate) d since w.now)
  after-exact now c pa pb locked es side d since ha hb short =
      let w = run es (boot now c (settings_a pa) (settings_b pb) locked) in
      let fit =
        leaf-IsFit side w.gate (run-OnCourse es _ short (boot-OnCourse now c pa pb locked ha hb)) in
      (
        fit.in_range,
        run_time-exact (leaf side w.gate) d fit,
        travelled-exact (leaf side w.gate) d since w.now short,
      )
