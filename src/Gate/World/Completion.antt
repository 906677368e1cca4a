-- ===== src/Gate/World/Completion.antt =====
-- A movement that nothing disturbs, up to its end.
use gate_link.Prelude.{
  ℕ, zero, suc, ◌+◌, ◌-◌, ◌≤◌, ◌≡◌, inl, inr, sym, ap, ◌∙◌, Bool, false, none, Option-cases, arith,
}
use mathlib.Core.Path.{subst}
use gate_link.Time.{Ticks}
use gate_link.Motor.{Direction, opening, closing, idle, Motor, run_time}
use gate_link.Motor.Travel.{run_time-none}
use gate_link.Controls.{blocked, set_direction, resolve_impulse, command_for}
use gate_link.Gate.{
  Phase, waiting, running, done, Task, driving, Gate, round, plan, drive, execute, notify,
}
use gate_link.Gate.Deadlines.{rank-le, Beyond, deadline_first, none_left}
use gate_link.Gate.Progress.{Going, IsFit}
use gate_link.Gate.World.{World, pass, wake, timer, happen, resume, resume_at}
use gate_link.Gate.World.Rounds.{Arrived, Moves, Outcome, round-Outcome}

module _ ⦃ticks : Ticks⦄ where
  -- Time passes up to the deadline, and the timer completes.
  until_timer : Task → World → World
  unfolding happen
  until_timer (driving _ _ _ _ deadline) w =
      happen (wake timer) (happen (pass (deadline - w.now)) w)
  until_timer _ w = w

  unfoldable pub undisturbed : ℕ → World → World
  unfolding until_timer
  undisturbed zero w = w
  undisturbed (suc n) w = undisturbed n (until_timer w.gate.task w)

  Going-Beyond : (d : Direction) (n : ℕ) (p : Phase) (m : Motor) → Going d n p m → Beyond n p
  Going-Beyond d n (waiting at) m g = g.ahead
  Going-Beyond d n (running at) m g = g.ahead
  Going-Beyond d n done m g = tt

  Going-until :
      (d : Direction) (n k : ℕ) (p : Phase) (m : Motor) → Going d n p m → Beyond k p → Going d k p m
  Going-until d n k (waiting at) m g h = record {
    idles = g.idles;
    ahead = h;
    time = g.time;
    needs = g.needs;
  }
  Going-until d n k (running at) m g h = record {
    since = g.since;
    time = g.time;
    runs = g.runs;
    needs = g.needs;
    until = g.until;
    ahead = h;
  }
  Going-until d n k done m g h = g

  resumed_at :
      (t : Task) (now : ℕ) (g : Gate) → g.task ≡ t → resume timer now g ≡ resume_at t timer now g
  unfolding resume
  resumed_at t now g e = ap (λ s. resume_at s timer now g) e

  timer_completes :
      (d : Direction) (pa pb : Phase) (moved : Bool) (deadline : ℕ) (g : Gate)
      → resume_at (driving d pa pb moved deadline) timer deadline g ≡ round d deadline pa pb moved g
  unfolding resume_at
  timer_completes d pa pb moved deadline g = ground arith

  timer_polled :
      (d : Direction) (pa pb : Phase) (moved : Bool) (deadline : ℕ) (w : World)
      → w.now ≤ deadline
      → w.gate.task ≡ driving d pa pb moved deadline
      → until_timer w.gate.task w
        ≡ record { now = deadline; gate = round d deadline pa pb moved w.gate }
  unfolding until_timer happen
  timer_polled d pa pb moved deadline w h e =
      let g = w.gate in
      let reached : w.now + (deadline - w.now) ≡ deadline = omega arith in
      ap (λ t. until_timer t w) e
      ∙ ap (λ n. record { now = n; gate = resume timer n g }) reached
      ∙ ap (λ x. record { now = deadline; gate = x })
          (resumed_at _ deadline g e ∙ timer_completes d pa pb moved deadline g)

  Moves-Outcome :
      (d : Direction) (turns : ℕ) (w : World)
      → Moves d w.now (suc turns) w.gate
      → Outcome d (until_timer w.gate.task w).now turns (until_timer w.gate.task w).gate
  Moves-Outcome d turns w m =
      let g = w.gate in
      let (later, a_until, b_until, falls) =
        deadline_first w.now m.deadline m.a_phase m.b_phase
          (Going-Beyond d (suc w.now) m.a_phase g.a m.a_going)
          (Going-Beyond d (suc w.now) m.b_phase g.b m.b_going) m.first in
      subst (λ x. Outcome d x.now turns x.gate)
        (sym (timer_polled d m.a_phase m.b_phase m.moved m.deadline w (omega arith) m.suspended))
        (round-Outcome d m.deadline turns m.a_phase m.b_phase m.moved g
          (Going-until d (suc w.now) m.deadline m.a_phase g.a m.a_going a_until)
          (Going-until d (suc w.now) m.deadline m.b_phase g.b m.b_going b_until) m.a_fit m.b_fit
          m.free (omega (arith, m.few)))

  undisturbed-Arrived :
      (n : ℕ) (d : Direction) (w : World)
      → Outcome d w.now n w.gate
      → Arrived d (undisturbed n w).gate
  unfolding undisturbed
  undisturbed-Arrived zero d w (inl arrived) = arrived
  undisturbed-Arrived zero d w (inr m) =
      absurd (none_left m.deadline m.a_phase m.b_phase m.few m.first)
  undisturbed-Arrived (suc n) d w (inl arrived) = undisturbed-Arrived n d _ (
      subst {A = World} (λ x. Outcome d x.now n x.gate)
        (sym (ap (λ t. until_timer t w) arrived.over)) (inl arrived))
  undisturbed-Arrived (suc n) d w (inr m) = undisturbed-Arrived n d _ (Moves-Outcome d n w m)

  plan-Going :
      (d : Direction) (now : ℕ) (m : Motor)
      → m.state ≡ idle
      → IsFit m
      → Going d now (plan m d now) m
  unfolding plan
  plan-Going d now m e f = elim (Option-cases (run_time m d)) [
    | inl n ↦ rw (n, plan) (e, (run_time-none m d f.in_range).0 n)
    | inr (time, n) ↦
        rw (n, plan) (record { idles = e; ahead = omega arith; time = time; needs = n })
  ]

  drive-Outcome :
      (d : Direction) (now : ℕ) (g : Gate)
      → g.a.state ≡ idle
      → g.b.state ≡ idle
      → IsFit g.a
      → IsFit g.b
      → blocked g.controls d ≡ none
      → Outcome d now 4 (drive d now g)
  unfolding drive set_direction blocked
  drive-Outcome d now g ia ib fa fb free =
      let g' = notify (record g { controls = set_direction d g.controls }) in
      rw (free, drive)
        (round-Outcome d now 4 _ _ false g' (plan-Going d now g.a ia fa)
          (plan-Going d now g.b ib fb) fa fb free
          (omega (arith, rank-le (plan g.a d now), rank-le (plan g.b d now))))

  -- An open or close command that the gate takes up while it is idle and may move, and that nothing
  -- disturbs: after at most four waits for the timer the movement is over, both leaves are at the
  -- end (fully open or fully closed), the motors are idle, the returned snapshot and the reported
  -- cover say so, and no command is pending. Positions are in the range of a u8, and the timing has
  -- an overrun of a millisecond or more and products that do not wrap.
  pub undisturbed_command_completes :
      (d : Direction) (now : ℕ) (g : Gate)
      → g.a.state ≡ idle
      → g.b.state ≡ idle
      → IsFit g.a
      → IsFit g.b
      → blocked g.controls d ≡ none
      → Arrived d (undisturbed 4 (record { now = now; gate = execute (command_for d) now g })).gate
  unfolding execute command_for resolve_impulse
  undisturbed_command_completes opening now g ia ib fa fb free =
      undisturbed-Arrived 4 opening _ (drive-Outcome opening now g ia ib fa fb free)
  undisturbed_command_completes closing now g ia ib fa fb free =
      undisturbed-Arrived 4 closing _ (drive-Outcome closing now g ia ib fa fb free)
