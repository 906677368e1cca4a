-- ===== src/Gate/Progress/Lateness.antt =====
-- The turn of one leaf in the loop of `drive`, however late the gate task is polled.
use gate_link.Prelude.{
  ℕ, ◌+◌, ◌-◌, ◌*◌, ◌^◌, ◌≤◌, ◌<◌, ◌≡◌, inl, inr, refl, ◌∙◌, Bool, leb, leb→le, Bool-cases,
  Option-cases, Option, some, arith,
}
use gate_link.Time.{Ticks}
use gate_link.Motor.{
  Direction, opening, closing, idle, Motor, run_time, start, stop, travelled, moved_to,
}
use gate_link.Motor
use gate_link.Motor.Travel.{end_of, run_time-pos, run_time-none, stop-run_time, as_millis-le}
use gate_link.Motor.Relays.{stop-idle, moved_to_bounds}
use gate_link.Gate.{Phase, waiting, running, done, Turn, plan}
use gate_link.Gate.Deadlines.{with_deadline}
use gate_link.Gate.Progress.{
  IsFit, turn_of, waits_early, waits_due, runs_early, runs_due, done_stays, start-state,
  start_needs, start-IsFit, stop-IsTimed,
}

module _ ⦃ticks : Ticks⦄ where
  -- No product of the milliseconds since the start and 255 wraps.
  abbrev pub Short : ℕ → Type 0
  Short now = ticks.as_millis now * 255 < 2 ^ 64

  pub record Awaits (d : Direction) (m : Motor) : Type 0 where
    pub idles : m.state ≡ idle
    pub time : ℕ
    pub needs : run_time m d ≡ some time

  pub record Underway (d : Direction) (at : ℕ) (m : Motor) : Type 0 where
    pub since : ℕ
    pub time : ℕ
    pub runs : m.state ≡ Motor.running d since
    pub needs : run_time m d ≡ some time
    pub until : at ≡ since + time

  -- A leaf on its way to the end, which may be overdue.
  abbrev pub Tracks : Direction → Phase → Motor → Type 0
  Tracks d (waiting at) m = Awaits d m
  Tracks d (running at) m = Underway d at m
  Tracks d done m = (m.state ≡ idle) × (m.position ≡ end_of d)

  pub stop-IsFit : (now : ℕ) (m : Motor) → IsFit m → IsFit (stop now m)
  unfolding stop
  stop-IsFit now m f = record {
    timed = stop-IsTimed now m f.timed;
    in_range = ground (
      arith,
      f.in_range,
      λ (d : Direction) (since : ℕ).
          moved_to_bounds m.position d (travelled m d since now) f.in_range,
    );
  }

  -- A leaf that runs out is at its end, however late it is stopped.
  stop_late :
      (d : Direction) (now at : ℕ) (m : Motor)
      → Short now
      → Underway d at m
      → IsFit m
      → at ≤ now
      → (stop now m).position ≡ end_of d
  stop_late d now at m short r f late =
      stop-run_time m d r.since now f.in_range f.timed r.needs r.runs (omega (arith, r.until))
        (omega (arith, short, as_millis-le (now - r.since) now (omega arith)))

  pub record KeepsTrack (d : Direction) (next : Option ℕ) (t : Turn) : Type 0 where
    pub tracks : Tracks d t.phase t.motor
    pub fit : IsFit t.motor
    pub deadline : t.next_deadline ≡ with_deadline next t.phase

  pub turn-KeepsTrack :
      (d : Direction) (now : ℕ) (p : Phase) (m : Motor) (moved : Bool) (next : Option ℕ)
      → Short now
      → Tracks d p m
      → IsFit m
      → KeepsTrack d next (turn_of d now p m moved next)
  turn-KeepsTrack d now (waiting at) m moved next short w f = elim (Bool-cases (leb at now)) [
    | inl e ↦
        rw (waits_due d now at m moved next w.time e w.needs (run_time-pos m d f.timed w.needs))
          (record {
            tracks = record {
              since = now;
              time = w.time;
              runs = start-state now d m;
              needs = start_needs now d m w.idles ∙ w.needs;
              until = refl;
            };
            fit = start-IsFit now d m w.idles f;
            deadline = refl;
          })
    | inr e ↦
        rw (waits_early d now at m moved next e) (record { tracks = w; fit = f; deadline = refl })
  ]
  turn-KeepsTrack d now (running at) m moved next short r f = elim (Bool-cases (leb at now)) [
    | inl e ↦ rw (runs_due d now at m moved next e) (record {
      tracks = (stop-idle now m, stop_late d now at m short r f (leb→le at now e));
      fit = stop-IsFit now m f;
      deadline = refl;
    })
    | inr e ↦
        rw (runs_early d now at m moved next e) (record { tracks = r; fit = f; deadline = refl })
  ]
  turn-KeepsTrack d now done m moved next short g f =
      rw (done_stays d now m moved next) (record { tracks = g; fit = f; deadline = refl })

  pub plan-Tracks :
      (d : Direction) (now : ℕ) (m : Motor) → m.state ≡ idle → IsFit m → Tracks d (plan m d now) m
  unfolding plan
  plan-Tracks d now m e f = elim (Option-cases (run_time m d)) [
    | inl none_needed ↦ rw (none_needed, plan) (e, (run_time-none m d f.in_range).0 none_needed)
    | inr (time, needed) ↦ rw (needed, plan) (record { idles = e; time = time; needs = needed })
  ]
