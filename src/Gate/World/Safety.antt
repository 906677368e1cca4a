-- ===== src/Gate/World/Safety.antt =====
-- The gate among the other tasks: what holds at every moment of every schedule.
use gate_link.Prelude.{ℕ, ◌∙◌, Bool, leb, if-intro, Option, none, some, List, [], ◌∷◌, arith}
use gate_link.Time.{Ticks}
use gate_link.Motor.{Direction}
use gate_link.Motor.Relays.{IsSound, IsSound-later}
use gate_link.Controls.{GateCommand, command_for, Call, apply_call}
use gate_link.Controls.Blocking.{
  AtDirection, apply_call-AtDirection, apply_call-Alerted, direction-apply_call,
}
use gate_link.Gate.{Phase, Task, returned, listening, driving, Gate}
use gate_link.Gate.Turns.{LeafFits}
use gate_link.Gate.Invariant.{
  IsSafe, TaskFits, AtRest, settle-IsSafe, finish-IsSafe, round-IsSafe, execute-IsSafe,
}
use gate_link.Gate.World.{
  Wake, step_called, timer, command, barrier_changed, wind_lock_reset, same_command, taken_command,
  taken_reset, begin_step, heard, interrupted, handed_back, resume_at, resume, World, Event, pass,
  call, wake, happen, run,
}

module _ ⦃ticks : Ticks⦄ where
  begin_step-IsSafe :
      (p : Option GateCommand) (now : ℕ) (g : Gate)
      → IsSound now g.a
      → IsSound now g.b
      → AtRest g.controls g.a g.b
      → IsSafe now (begin_step p now g)
  unfolding begin_step
  begin_step-IsSafe (some cmd) now g sa sb (ia, ib, c) =
      execute-IsSafe cmd now (record g { pending = none }) sa sb ia ib
  begin_step-IsSafe none now g sa sb rest = record { a_sound = sa; b_sound = sb; fits = rest }

  heard-IsSafe :
      (p : Option GateCommand) (now : ℕ) (g : Gate)
      → AtRest g.controls g.a g.b
      → IsSafe now g
      → IsSafe now (heard p now g)
  unfolding heard
  heard-IsSafe (some cmd) now g (ia, ib, c) s =
      execute-IsSafe cmd now (taken_command g) s.a_sound s.b_sound ia ib
  heard-IsSafe none now g rest s = s

  interrupted-IsSafe :
      (p : Option GateCommand) (d : Direction) (now : ℕ) (a b : Phase) (moved : Bool) (g : Gate)
      → LeafFits d a g.a
      → LeafFits d b g.b
      → AtDirection d g.controls
      → IsSafe now g
      → IsSafe now (interrupted p d now a b moved g)
  unfolding interrupted
  interrupted-IsSafe none d now a b moved g fa fb c s = s
  interrupted-IsSafe (some cmd) d now a b moved g fa fb c s =
      let g' = taken_command g in
      if-intro (IsSafe now) (same_command cmd (command_for d))
        (λ _. round-IsSafe d now a b moved g' s.a_sound s.b_sound fa fb c)
        (λ _. finish-IsSafe moved (handed_back cmd) g' s.a_sound s.b_sound)

  resume_at-IsSafe :
      (t : Task) (k : Wake) (now : ℕ) (g : Gate)
      → TaskFits t g.controls g.a g.b
      → IsSafe now g
      → IsSafe now (resume_at t k now g)
  unfolding resume_at
  resume_at-IsSafe (returned _) step_called now g f s =
      begin_step-IsSafe g.pending now g s.a_sound s.b_sound f
  resume_at-IsSafe listening command now g f s = heard-IsSafe g.controls.command now g f s
  resume_at-IsSafe listening wind_lock_reset now g f s =
      if-intro (IsSafe now) g.controls.wind_lock_reset
        (λ _. settle-IsSafe (taken_reset g) s.a_sound s.b_sound f.0 f.1) (λ _. s)
  resume_at-IsSafe (driving d a b moved deadline) timer now g (c, fa, fb, _) s =
      if-intro (IsSafe now) (leb deadline now)
        (λ _. round-IsSafe d now a b moved g s.a_sound s.b_sound fa fb c) (λ _. s)
  resume_at-IsSafe (driving d a b moved deadline) command now g (c, fa, fb, _) s =
      interrupted-IsSafe g.controls.command d now a b moved g fa fb c s
  resume_at-IsSafe (driving d a b moved deadline) barrier_changed now g (c, fa, fb, _) s =
      if-intro (IsSafe now) g.controls.barrier_changed
        (λ _. round-IsSafe d now a b moved _ s.a_sound s.b_sound fa fb c) (λ _. s)
  resume_at-IsSafe (driving d a b moved deadline) wind_lock_reset now g (c, fa, fb, _) s =
      if-intro (IsSafe now) g.controls.wind_lock_reset
        (λ _. round-IsSafe d now a b moved _ s.a_sound s.b_sound fa fb c) (λ _. s)
  resume_at-IsSafe _ _ now g f s = s

  pub resume-IsSafe : (k : Wake) {now : ℕ} {g : Gate} → IsSafe now g → IsSafe now (resume k now g)
  unfolding resume
  resume-IsSafe k {now} {g} s = resume_at-IsSafe g.task k now g s.fits s

TaskFits-call :
    (k : Call) (t : Task) (g : Gate)
    → TaskFits t g.controls g.a g.b
    → TaskFits t (apply_call k g.controls) g.a g.b
TaskFits-call k (returned _) g (ia, ib, c) = (ia, ib, direction-apply_call k g.controls ∙ c)
TaskFits-call k listening g (ia, ib, c) = (ia, ib, direction-apply_call k g.controls ∙ c)
TaskFits-call k (driving d a b moved deadline) g (c, fa, fb, alert) =
    (apply_call-AtDirection k d g.controls c, fa, fb, apply_call-Alerted k d g.controls alert)

abbrev pub IsSafeWorld : World → Type 0
IsSafeWorld w = IsSafe w.now w.gate

module _ ⦃ticks : Ticks⦄ where
  pub happen-IsSafe : (e : Event) (w : World) → IsSafeWorld w → IsSafeWorld (happen e w)
  unfolding happen
  happen-IsSafe (pass time) w s = record {
    a_sound = IsSound-later (omega arith) s.a_sound;
    b_sound = IsSound-later (omega arith) s.b_sound;
    fits = s.fits;
  }
  happen-IsSafe (call k) w s = record {
    a_sound = s.a_sound;
    b_sound = s.b_sound;
    fits = TaskFits-call k w.gate.task w.gate s.fits;
  }
  happen-IsSafe (wake k) w s = resume-IsSafe k s

  pub run-IsSafe : (es : List Event) (w : World) → IsSafeWorld w → IsSafeWorld (run es w)
  unfolding run
  run-IsSafe [] w s = s
  run-IsSafe (e ∷ es) w s = run-IsSafe es (happen e w) (happen-IsSafe e w s)
