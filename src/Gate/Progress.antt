-- ===== src/Gate/Progress.antt =====
-- The turn of one leaf in the loop of `drive`, as a step towards the end of the leaf's run.
pub mod Lateness
use gate_link.Prelude.{
  ℕ, suc, ◌+◌, ◌-◌, ◌≤◌, ◌<◌, ◌≡◌, inl, inr, refl, ◌∙◌, Bool, true, false, leb, leb→le, Bool-cases,
  Option, some, arith,
}
use gate_link.Time.{Ticks}
use gate_link.Motor.{Direction, opening, closing, idle, Motor, run_time, start, stop}
use gate_link.Motor
use gate_link.Motor.Travel.{IsTimed, end_of, run_time_fits, run_time-pos, stop-run_time}
use gate_link.Motor.Relays.{stop-idle}
use gate_link.Gate.{Phase, waiting, running, done, Turn, turn, map_or_min}
use gate_link.Gate.Deadlines.{rank, due, with_deadline}

module _ ⦃ticks : Ticks⦄ where
  pub record Waits (d : Direction) (now at : ℕ) (m : Motor) : Type 0 where
    pub idles : m.state ≡ idle
    pub ahead : now ≤ at
    pub time : ℕ
    pub needs : run_time m d ≡ some time

  pub record Runs (d : Direction) (now at : ℕ) (m : Motor) : Type 0 where
    pub since : ℕ
    pub time : ℕ
    pub runs : m.state ≡ Motor.running d since
    pub needs : run_time m d ≡ some time
    pub until : at ≡ since + time
    pub ahead : now ≤ at

  -- A leaf on its way to the end, with nothing that was due before `now`.
  abbrev pub Going : Direction → ℕ → Phase → Motor → Type 0
  Going d now (waiting at) m = Waits d now at m
  Going d now (running at) m = Runs d now at m
  Going d now done m = (m.state ≡ idle) × (m.position ≡ end_of d)

  pub record IsFit (m : Motor) : Type 0 where
    pub timed : IsTimed m
    pub in_range : m.position ≤ 255

  pub record Advances (d : Direction) (now : ℕ) (p : Phase) (next : Option ℕ) (t : Turn)
      : Type 0 where
    pub going : Going d (suc now) t.phase t.motor
    pub fit : IsFit t.motor
    pub deadline : t.next_deadline ≡ with_deadline next t.phase
    pub nearer : rank t.phase + due p now ≤ rank p

  abbrev pub turn_of : Direction → ℕ → Phase → Motor → Bool → Option ℕ → Turn
  turn_of d now p m moved next =
      turn d now (record { motor = m; phase = p; moved = moved; next_deadline = next })

  waits_early :
      (d : Direction) (now at : ℕ) (m : Motor) (moved : Bool) (next : Option ℕ)
      → leb at now ≡ false
      → turn_of d now (waiting at) m moved next ≡ record {
        motor = m;
        phase = waiting at;
        moved = moved;
        next_deadline = some (map_or_min next at);
      }
  unfolding turn
  waits_early d now at m moved next e = ground arith

  waits_due :
      (d : Direction) (now at : ℕ) (m : Motor) (moved : Bool) (next : Option ℕ) (time : ℕ)
      → leb at now ≡ true
      → run_time m d ≡ some time
      → 0 < time
      → turn_of d now (waiting at) m moved next ≡ record {
        motor = start now d m;
        phase = running (now + time);
        moved = true;
        next_deadline = some (map_or_min next (now + time));
      }
  unfolding turn
  waits_due d now at m moved next time e n pos = ground arith

  runs_early :
      (d : Direction) (now at : ℕ) (m : Motor) (moved : Bool) (next : Option ℕ)
      → leb at now ≡ false
      → turn_of d now (running at) m moved next ≡ record {
        motor = m;
        phase = running at;
        moved = moved;
        next_deadline = some (map_or_min next at);
      }
  unfolding turn
  runs_early d now at m moved next e = ground arith

  runs_due :
      (d : Direction) (now at : ℕ) (m : Motor) (moved : Bool) (next : Option ℕ)
      → leb at now ≡ true
      → turn_of d now (running at) m moved next
        ≡ record { motor = stop now m; phase = done; moved = moved; next_deadline = next }
  unfolding turn
  runs_due d now at m moved next e = ground arith

  done_stays :
      (d : Direction) (now : ℕ) (m : Motor) (moved : Bool) (next : Option ℕ)
      → turn_of d now done m moved next
        ≡ record { motor = m; phase = done; moved = moved; next_deadline = next }
  unfolding turn
  done_stays d now m moved next = refl

  start_needs :
      (now : ℕ) (d : Direction) (m : Motor)
      → m.state ≡ idle
      → run_time (start now d m) d ≡ run_time m d
  unfolding start run_time
  start_needs now d m e = ground arith

  start-state : (now : ℕ) (d : Direction) (m : Motor) → (start now d m).state ≡ Motor.running d now
  unfolding start
  start-state now d m = refl

  start-IsFit :
      (now : ℕ) (d : Direction) (m : Motor) → m.state ≡ idle → IsFit m → IsFit (start now d m)
  unfolding start
  start-IsFit now d m e f = ground arith

  pub stop_idle_eq : (now : ℕ) (m : Motor) → m.state ≡ idle → stop now m ≡ m
  unfolding stop
  stop_idle_eq now m e = ground arith

  stop-IsTimed : (now : ℕ) (m : Motor) → IsTimed m → IsTimed (stop now m)
  unfolding stop
  stop-IsTimed now m t = ground arith

  -- A leaf that runs out is at its end.
  stop-end_of :
      (d : Direction) (now at : ℕ) (m : Motor)
      → Runs d now at m
      → IsFit m
      → at ≤ now
      → (stop now m).position ≡ end_of d
  stop-end_of d now at m r f late =
      let exact : now - r.since ≡ r.time = omega (arith, r.until, r.ahead) in
      stop-run_time m d r.since now f.in_range f.timed r.needs r.runs (omega (arith, r.until))
        (rw exact (run_time_fits m d f.in_range f.timed r.needs))

  end_of-le : (d : Direction) → end_of d ≤ 255
  end_of-le opening = omega arith
  end_of-le closing = omega arith

  pub turn-Advances :
      (d : Direction) (now : ℕ) (p : Phase) (m : Motor) (moved : Bool) (next : Option ℕ)
      → Going d now p m
      → IsFit m
      → Advances d now p next (turn_of d now p m moved next)
  turn-Advances d now (waiting at) m moved next w f = elim (Bool-cases (leb at now)) [
    | inl e ↦
        rw (waits_due d now at m moved next w.time e w.needs (run_time-pos m d f.timed w.needs))
          (record {
            going = record {
              since = now;
              time = w.time;
              runs = start-state now d m;
              needs = start_needs now d m w.idles ∙ w.needs;
              until = refl;
              ahead = omega (arith, run_time-pos m d f.timed w.needs);
            };
            fit = start-IsFit now d m w.idles f;
            deadline = refl;
            nearer = ground arith;
          })
    | inr e ↦ rw (waits_early d now at m moved next e) (record {
      going = record { idles = w.idles; ahead = ground arith; time = w.time; needs = w.needs };
      fit = f;
      deadline = refl;
      nearer = ground arith;
    })
  ]
  turn-Advances d now (running at) m moved next r f = elim (Bool-cases (leb at now)) [
    | inl e ↦ rw (runs_due d now at m moved next e) (
        let ends = stop-end_of d now at m r f (leb→le at now e) in
        record {
          going = (stop-idle now m, ends);
          fit = record {
            timed = stop-IsTimed now m f.timed;
            in_range = omega (arith, ends, end_of-le d);
          };
          deadline = refl;
          nearer = ground arith;
        })
    | inr e ↦ rw (runs_early d now at m moved next e) (record {
      going = record {
        since = r.since;
        time = r.time;
        runs = r.runs;
        needs = r.needs;
        until = r.until;
        ahead = ground arith;
      };
      fit = f;
      deadline = refl;
      nearer = ground arith;
    })
  ]
  turn-Advances d now done m moved next g f =
      rw (done_stays d now m moved next)
        (record { going = g; fit = f; deadline = refl; nearer = omega arith })
