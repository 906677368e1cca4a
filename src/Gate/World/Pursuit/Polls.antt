-- ===== src/Gate/World/Pursuit/Polls.antt =====
-- The pursuit of the wind guard's command through the polls of the gate task.
use gate_link.Prelude.{ℕ, ◌≡◌, ◌⊎◌, refl, Bool, leb, if-intro, inl, inr, Option, none, some, arith}
use gate_link.Time.{Ticks}
use gate_link.Motor.{opening, closing}
use gate_link.Controls.{GateCommand, open_gate, command_for}
use gate_link.Gate.{Phase, Task, returned, listening, driving, Gate, notify}
use gate_link.Gate.Progress.Lateness.{Short}
use gate_link.Gate.World.{
  Wake, step_called, timer, command, barrier_changed, wind_lock_reset, taken_command, taken_barrier,
  taken_reset, begin_step, heard, interrupted, handed_back, resume_at, resume,
}
use gate_link.Gate.World.Course.{Settled, Legs, OnCourse, OnTheWay}
use gate_link.Gate.World.Pursuit.{
  Wants, Guarded, Pursuit, Pursues, settle-Pursues, finish-Pursues, Wants-Excuse,
  round_opening-Pursues, round_closing-Pursues,
}
use gate_link.Gate.World.Pursuit.Commands.{execute-Pursues}

module _ ⦃ticks : Ticks⦄ (now : ℕ) (short : Short now) where
  begin_step-Pursues :
      (p : Option GateCommand) (g : Gate)
      → Guarded g.controls
      → Settled g.controls g.a g.b
      → OnCourse g
      → Wants g.controls ⊎ (p ≡ some open_gate)
      → Pursues (begin_step p now g)
  unfolding begin_step
  begin_step-Pursues (some cmd) g slot rest h w =
      execute-Pursues now short cmd (record g { pending = none }) slot h.a_fit h.b_fit rest
        (ground (arith, w))
  begin_step-Pursues none g slot rest h w = (slot, ground (arith, w))

  -- The slot holds the open command only.
  heard-Pursues :
      (p : Option GateCommand) (g : Gate)
      → p ≡ g.controls.command
      → Settled g.controls g.a g.b
      → OnCourse g
      → Guarded g.controls
      → Wants g.controls
      → Pursues g
      → Pursues (heard p now g)
  unfolding heard taken_command
  heard-Pursues (some cmd) g e rest h slot w k =
      execute-Pursues now short cmd (taken_command g) (slot.0, inl refl) h.a_fit h.b_fit rest
        (inr (ground arith))
  heard-Pursues none g e rest h slot w k = k

  interrupted_opening-Pursues :
      (p : Option GateCommand) (a b : Phase) (moved : Bool) (g : Gate)
      → p ≡ g.controls.command
      → OnTheWay now short opening a b g
      → Guarded g.controls
      → Pursues g
      → Pursues (interrupted p opening now a b moved g)
  unfolding interrupted taken_command command_for
  interrupted_opening-Pursues none a b moved g e way slot k = k
  interrupted_opening-Pursues (some cmd) a b moved g e way slot k =
      let opens : cmd ≡ open_gate = ground arith in
      rw opens (round_opening-Pursues now short a b moved (taken_command g) (slot.0, inl refl) way)

  interrupted_closing-Pursues :
      (p : Option GateCommand) (a b : Phase) (moved : Bool) (g : Gate)
      → p ≡ some open_gate
      → Guarded g.controls
      → Pursues (interrupted p closing now a b moved g)
  unfolding interrupted taken_command command_for handed_back
  interrupted_closing-Pursues none a b moved g e slot = absurd (ground arith)
  interrupted_closing-Pursues (some cmd) a b moved g e slot =
      let opens : cmd ≡ open_gate = ground arith in
      rw opens (
        finish-Pursues now moved (some open_gate) (taken_command g) (slot.0, inl refl)
          (inr (inr (inr refl))))

  resume_at-Pursues :
      (t : Task) (k : Wake) (g : Gate)
      → Legs t g.controls g.a g.b
      → Pursuit t g.controls g.pending
      → OnCourse g
      → Pursues g
      → Pursues (resume_at t k now g)
  unfolding resume_at taken_barrier taken_reset notify
  resume_at-Pursues (returned _) step_called g l w h k = begin_step-Pursues g.pending g k.0 l h w
  resume_at-Pursues listening command g l w h k =
      heard-Pursues g.controls.command g refl l h k.0 w k
  resume_at-Pursues listening wind_lock_reset g l w h k =
      if-intro Pursues g.controls.wind_lock_reset
        (λ _. settle-Pursues (taken_reset g) k.0 (Wants-Excuse g.controls g.a g.b g.pending l.2 w))
        (λ _. k)
  resume_at-Pursues (driving opening a b moved deadline) timer g l w h k =
      if-intro Pursues (leb deadline now)
        (λ _. round_opening-Pursues now short a b moved g k.0 (h.a_fit, h.b_fit, l.0, l.1)) (λ _. k)
  resume_at-Pursues (driving opening a b moved deadline) command g l w h k =
      interrupted_opening-Pursues g.controls.command a b moved g refl (h.a_fit, h.b_fit, l.0, l.1)
        k.0 k
  resume_at-Pursues (driving opening a b moved deadline) barrier_changed g l w h k =
      if-intro Pursues g.controls.barrier_changed
        (λ _.
          round_opening-Pursues now short a b moved (taken_barrier g) k.0
            (h.a_fit, h.b_fit, l.0, l.1))
        (λ _. k)
  resume_at-Pursues (driving opening a b moved deadline) wind_lock_reset g l w h k =
      if-intro Pursues g.controls.wind_lock_reset
        (λ _.
          round_opening-Pursues now short a b moved (notify (taken_reset g)) k.0
            (h.a_fit, h.b_fit, l.0, l.1))
        (λ _. k)
  resume_at-Pursues (driving closing a b moved deadline) timer g l w h k =
      if-intro Pursues (leb deadline now) (λ _. round_closing-Pursues now short a b moved g k.0.0 w)
        (λ _. k)
  resume_at-Pursues (driving closing a b moved deadline) command g l w h k =
      interrupted_closing-Pursues g.controls.command a b moved g w k.0
  resume_at-Pursues (driving closing a b moved deadline) barrier_changed g l w h k =
      if-intro Pursues g.controls.barrier_changed
        (λ _. round_closing-Pursues now short a b moved (taken_barrier g) k.0.0 w) (λ _. k)
  resume_at-Pursues (driving closing a b moved deadline) wind_lock_reset g l w h k =
      if-intro Pursues g.controls.wind_lock_reset
        (λ _. round_closing-Pursues now short a b moved (notify (taken_reset g)) k.0.0 w) (λ _. k)
  resume_at-Pursues _ _ g l w h k = k

  pub resume-Pursues : (k : Wake) (g : Gate) → OnCourse g → Pursues g → Pursues (resume k now g)
  unfolding resume
  resume-Pursues k g h p = resume_at-Pursues g.task k g h.legs p.1 h p
