-- ===== src/Gate/World/Course/Runs.antt =====
-- The leaves' course through the polls of the gate task and among the other tasks.
use gate_link.Prelude.{
  ℕ, ◌≤◌, ◌≡◌, ◌∙◌, Bool, leb, if-intro, Option, none, some, List, [], ◌∷◌, arith,
}
use gate_link.Time.{Ticks}
use gate_link.Motor.{Direction, Motor}
use gate_link.Motor.Travel.{as_millis-le}
use gate_link.Controls.{Controls, GateCommand, command_for, Call, apply_call}
use gate_link.Gate.{Phase, Task, returned, listening, driving, Gate, notify}
use gate_link.Gate.Progress.Lateness.{Short}
use gate_link.Gate.World.{
  Wake, step_called, timer, command, barrier_changed, wind_lock_reset, same_command, taken_command,
  taken_barrier, taken_reset, begin_step, heard, interrupted, handed_back, resume_at, resume, World,
  Event, pass, call, wake, happen, run,
}
use gate_link.Gate.World.Course.{
  Settled, Legs, OnCourse, settle-OnCourse, finish-OnCourse, OnTheWay, round-OnCourse,
  execute-OnCourse,
}

module _ ⦃ticks : Ticks⦄ (now : ℕ) (short : Short now) where
  begin_step-OnCourse :
      (p : Option GateCommand) (g : Gate)
      → Settled g.controls g.a g.b
      → OnCourse g
      → OnCourse (begin_step p now g)
  unfolding begin_step
  begin_step-OnCourse (some cmd) g (ia, ib, _) h =
      execute-OnCourse now short cmd (record g { pending = none }) h.a_fit h.b_fit ia ib
  begin_step-OnCourse none g rest h = record { a_fit = h.a_fit; b_fit = h.b_fit; legs = rest }

  heard-OnCourse :
      (p : Option GateCommand) (g : Gate)
      → Settled g.controls g.a g.b
      → OnCourse g
      → OnCourse (heard p now g)
  unfolding heard taken_command
  heard-OnCourse (some cmd) g (ia, ib, _) h =
      execute-OnCourse now short cmd (taken_command g) h.a_fit h.b_fit ia ib
  heard-OnCourse none g rest h = h

  interrupted-OnCourse :
      (p : Option GateCommand) (d : Direction) (a b : Phase) (moved : Bool) (g : Gate)
      → OnTheWay now short d a b g
      → OnCourse g
      → OnCourse (interrupted p d now a b moved g)
  unfolding interrupted taken_command
  interrupted-OnCourse none d a b moved g way h = h
  interrupted-OnCourse (some cmd) d a b moved g way h =
      if-intro OnCourse (same_command cmd (command_for d))
        (λ _. round-OnCourse now short d a b moved (taken_command g) way)
        (λ _. finish-OnCourse now moved (handed_back cmd) (taken_command g) way.0 way.1)

  resume_at-OnCourse :
      (t : Task) (k : Wake) (g : Gate)
      → Legs t g.controls g.a g.b
      → OnCourse g
      → OnCourse (resume_at t k now g)
  unfolding resume_at taken_barrier taken_reset notify
  resume_at-OnCourse (returned _) step_called g l h = begin_step-OnCourse g.pending g l h
  resume_at-OnCourse listening command g l h = heard-OnCourse g.controls.command g l h
  resume_at-OnCourse listening wind_lock_reset g l h =
      if-intro OnCourse g.controls.wind_lock_reset
        (λ _. settle-OnCourse (taken_reset g) h.a_fit h.b_fit l.0 l.1) (λ _. h)
  resume_at-OnCourse (driving d a b moved deadline) timer g (la, lb) h =
      if-intro OnCourse (leb deadline now)
        (λ _. round-OnCourse now short d a b moved g (h.a_fit, h.b_fit, la, lb)) (λ _. h)
  resume_at-OnCourse (driving d a b moved deadline) command g (la, lb) h =
      interrupted-OnCourse g.controls.command d a b moved g (h.a_fit, h.b_fit, la, lb) h
  resume_at-OnCourse (driving d a b moved deadline) barrier_changed g (la, lb) h =
      if-intro OnCourse g.controls.barrier_changed
        (λ _. round-OnCourse now short d a b moved (taken_barrier g) (h.a_fit, h.b_fit, la, lb))
        (λ _. h)
  resume_at-OnCourse (driving d a b moved deadline) wind_lock_reset g (la, lb) h =
      if-intro OnCourse g.controls.wind_lock_reset
        (λ _.
          round-OnCourse now short d a b moved (notify (taken_reset g)) (h.a_fit, h.b_fit, la, lb))
        (λ _. h)
  resume_at-OnCourse _ _ g l h = h

position-apply_call : (k : Call) (c : Controls) → (apply_call k c).position ≡ c.position
unfolding apply_call
position-apply_call k c = ground arith

module _ ⦃ticks : Ticks⦄ where
  Legs-call :
      (k : Call) (t : Task) (c : Controls) (a b : Motor)
      → Legs t c a b
      → Legs t (apply_call k c) a b
  Legs-call k (returned _) c a b (ia, ib, p) = (ia, ib, position-apply_call k c ∙ p)
  Legs-call k listening c a b (ia, ib, p) = (ia, ib, position-apply_call k c ∙ p)
  Legs-call k (driving d pa pb moved deadline) c a b l = l

  pub happen-OnCourse :
      (e : Event) (w : World) → Short w.now → OnCourse w.gate → OnCourse (happen e w).gate
  unfolding happen resume
  happen-OnCourse (pass time) w short h = h
  happen-OnCourse (call k) w short h = record {
    a_fit = h.a_fit;
    b_fit = h.b_fit;
    legs = Legs-call k w.gate.task w.gate.controls w.gate.a w.gate.b h.legs;
  }
  happen-OnCourse (wake k) w short h = resume_at-OnCourse w.now short w.gate.task k w.gate h.legs h

  now-happen : (e : Event) (w : World) → w.now ≤ (happen e w).now
  unfolding happen
  now-happen (pass time) w = omega arith
  now-happen (call k) w = omega arith
  now-happen (wake k) w = omega arith

  now-run : (es : List Event) (w : World) → w.now ≤ (run es w).now
  unfolding run
  now-run [] w = omega arith
  now-run (e ∷ es) w = omega (arith, now-happen e w, now-run es (happen e w))

  -- It was early enough all the time if it is at the end.
  pub Short-run : (es : List Event) (w : World) → Short (run es w).now → Short w.now
  Short-run es w h = omega (arith, h, as_millis-le w.now (run es w).now (now-run es w))

  pub run-OnCourse :
      (es : List Event) (w : World)
      → Short (run es w).now
      → OnCourse w.gate
      → OnCourse (run es w).gate
  unfolding run
  run-OnCourse [] w short h = h
  run-OnCourse (e ∷ es) w short h =
      run-OnCourse es (happen e w) short (happen-OnCourse e w (Short-run (e ∷ es) w short) h)
