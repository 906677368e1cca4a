-- ===== src/Gate/World/Refinement/Runs.antt =====
-- The gate task as a cover, through its polls and among the other tasks.
use gate_link.Prelude.{
  ℕ, ◌≡◌, refl, sym, Bool, true, false, leb, if-intro, Option, none, some, List, [], ◌∷◌, arith,
}
use mathlib.Core.Path.{subst}
use gate_link.Time.{Ticks}
use gate_link.Motor.{Direction, Motor}
use gate_link.Controls.{
  Controls, GateCommand, command_for, Call, call_wind_trigger, call_reset_wind_lock, apply_call,
}
use gate_link.Gate.{Phase, Task, returned, listening, driving, Gate, notify, settle}
use gate_link.Gate.Cover.{Cover, Reach, here, moving_of, view, cover_of}
use gate_link.Gate.Invariant.{IsSafe, TaskFits}
use gate_link.Gate.World.{
  Wake, step_called, timer, command, barrier_changed, wind_lock_reset, same_command, taken_command,
  taken_barrier, taken_reset, begin_step, heard, interrupted, handed_back, resume_at, resume, World,
  Event, pass, call, wake, happen, run,
}
use gate_link.Gate.World.Safety.{IsSafeWorld, happen-IsSafe}
use gate_link.Gate.World.Refinement.{
  Fits, Stands, Along-LeafFits, finish-Reach, round-Reach, execute-Reach,
}

module _ ⦃ticks : Ticks⦄ (now : ℕ) where
  begin_step-Reach :
      (p : Option GateCommand) (g : Gate)
      → Stands now g
      → Reach (view none g.controls g.a g.b) (cover_of (begin_step p now g))
  unfolding begin_step moving_of
  begin_step-Reach (some cmd) g s = execute-Reach cmd now (record g { pending = none }) s
  begin_step-Reach none g s = here

  heard-Reach :
      (p : Option GateCommand) (g : Gate)
      → Stands now g
      → g.task ≡ listening
      → Reach (view none g.controls g.a g.b) (cover_of (heard p now g))
  unfolding heard taken_command moving_of
  heard-Reach (some cmd) g s e = execute-Reach cmd now (taken_command g) s
  heard-Reach none g s e =
      subst (λ t. Reach (view none g.controls g.a g.b) (view (moving_of t) g.controls g.a g.b))
        (sym e) here

  -- A gate that the poll leaves as it is.
  stays :
      (g : Gate) (t : Task)
      → g.task ≡ t
      → Reach (view (moving_of t) g.controls g.a g.b) (cover_of g)
  stays g t e =
      subst
        (λ u. Reach (view (moving_of t) g.controls g.a g.b) (view (moving_of u) g.controls g.a g.b))
        (sym e) here

  interrupted-Reach :
      (p : Option GateCommand) (d : Direction) (a b : Phase) (moved : Bool) (deadline : ℕ)
      (g : Gate)
      → Fits now d a b g
      → g.task ≡ driving d a b moved deadline
      → Reach (view (some d) g.controls g.a g.b) (cover_of (interrupted p d now a b moved g))
  unfolding interrupted taken_command moving_of
  interrupted-Reach none d a b moved deadline g f e = stays g (driving d a b moved deadline) e
  interrupted-Reach (some cmd) d a b moved deadline g (sa, sb, fa, fb) e =
      let from = view (some d) g.controls g.a g.b in
      if-intro (λ h. Reach from (cover_of h)) (same_command cmd (command_for d))
        (λ _. round-Reach d now a b moved (taken_command g) (sa, sb, fa, fb))
        (λ _.
          finish-Reach d now moved (handed_back cmd) (taken_command g) sa.in_range sb.in_range
            (Along-LeafFits d a g.a fa) (Along-LeafFits d b g.b fb))

  resume_at-Reach :
      (t : Task) (k : Wake) (g : Gate)
      → g.task ≡ t
      → TaskFits t g.controls g.a g.b
      → IsSafe now g
      → Reach (view (moving_of t) g.controls g.a g.b) (cover_of (resume_at t k now g))
  unfolding resume_at taken_barrier taken_reset notify settle moving_of
  resume_at-Reach (returned s) step_called g e (ia, ib, _) h =
      begin_step-Reach g.pending g (h.a_sound, h.b_sound, ia, ib)
  resume_at-Reach listening command g e (ia, ib, _) h =
      heard-Reach g.controls.command g (h.a_sound, h.b_sound, ia, ib) e
  resume_at-Reach listening wind_lock_reset g e (ia, ib, _) h =
      if-intro (λ g'. Reach (view none g.controls g.a g.b) (cover_of g')) g.controls.wind_lock_reset
        (λ _. here) (λ _. stays g listening e)
  resume_at-Reach (driving d a b moved deadline) timer g e (_, fa, fb, _) h =
      if-intro (λ g'. Reach (view (some d) g.controls g.a g.b) (cover_of g')) (leb deadline now)
        (λ _. round-Reach d now a b moved g (h.a_sound, h.b_sound, fa, fb))
        (λ _. stays g (driving d a b moved deadline) e)
  resume_at-Reach (driving d a b moved deadline) command g e (_, fa, fb, _) h =
      interrupted-Reach g.controls.command d a b moved deadline g (h.a_sound, h.b_sound, fa, fb) e
  resume_at-Reach (driving d a b moved deadline) barrier_changed g e (_, fa, fb, _) h =
      if-intro (λ g'. Reach (view (some d) g.controls g.a g.b) (cover_of g'))
        g.controls.barrier_changed
        (λ _. round-Reach d now a b moved (taken_barrier g) (h.a_sound, h.b_sound, fa, fb))
        (λ _. stays g (driving d a b moved deadline) e)
  resume_at-Reach (driving d a b moved deadline) wind_lock_reset g e (_, fa, fb, _) h =
      if-intro (λ g'. Reach (view (some d) g.controls g.a g.b) (cover_of g'))
        g.controls.wind_lock_reset
        (λ _. round-Reach d now a b moved (notify (taken_reset g)) (h.a_sound, h.b_sound, fa, fb))
        (λ _. stays g (driving d a b moved deadline) e)
  resume_at-Reach t _ g e f h = stays g t e

-- What each event may do to a cover: time does nothing, the wind guard and its reset set the lock,
-- the other calls do nothing, and a poll of the gate task goes a path.
abbrev pub Follows : Event → Cover → Cover → Type 0
Follows (pass _) s t = t ≡ s
Follows (call call_wind_trigger) s t = t ≡ record s { locked = true }
Follows (call call_reset_wind_lock) s t = t ≡ record s { locked = false }
Follows (call _) s t = t ≡ s
Follows (wake _) s t = Reach s t

abbrev pub FollowsAll : List Event → Cover → Cover → Type 0
FollowsAll [] s t = t ≡ s
FollowsAll (e ∷ es) s t = (u : Cover) × Follows e s u × FollowsAll es u t

call-Follows :
    (k : Call) (t : Task) (c : Controls) (a b : Motor)
    → Follows (call k) (view (moving_of t) c a b) (view (moving_of t) (apply_call k c) a b)
unfolding apply_call
call-Follows k t c a b = ground arith

module _ ⦃ticks : Ticks⦄ where
  happen-Follows :
      (e : Event) (w : World)
      → IsSafeWorld w
      → Follows e (cover_of w.gate) (cover_of (happen e w).gate)
  unfolding happen resume
  happen-Follows (pass time) w s = refl
  happen-Follows (call k) w s = call-Follows k w.gate.task w.gate.controls w.gate.a w.gate.b
  happen-Follows (wake k) w s = resume_at-Reach w.now w.gate.task k w.gate refl s.fits s

  pub run-FollowsAll :
      (es : List Event) (w : World)
      → IsSafeWorld w
      → FollowsAll es (cover_of w.gate) (cover_of (run es w).gate)
  unfolding run
  run-FollowsAll [] w s = refl
  run-FollowsAll (e ∷ es) w s = (
    cover_of (happen e w).gate,
    happen-Follows e w s,
    run-FollowsAll es (happen e w) (happen-IsSafe e w s),
  )
