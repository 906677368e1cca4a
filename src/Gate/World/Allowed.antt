-- ===== src/Gate/World/Allowed.antt =====
-- Polls of the gate task, and what blocks a movement.
use gate_link.Prelude.{
  ℕ, ◌≡◌, refl, sym, Bool, true, false, inl, inr, Option-cases, if-true, Option, none, some,
}
use mathlib.Core.Path.{subst}
use gate_link.Time.{Ticks}
use gate_link.Motor.{Direction, opening, closing}
use gate_link.Controls.{
  Controls, GateCommand, open_gate, close_gate, stop_gate, press_impulse, blocked, set_direction,
  resolve_impulse,
}
use gate_link.Controls.Blocking.{is_some}
use gate_link.Gate.{
  Phase, Task, returned, listening, driving, Gate, Turn, a_turn, b_turn, round, finish, suspend,
  drive, execute, run_command, notify, settle,
}
use gate_link.Gate.World.{
  Wake, step_called, command, wind_lock_reset, begin_step, heard, taken_command, taken_reset,
  resume_at, resume,
}
use gate_link.Gate.World.Polls.{is_driving, is_ready, ready_at_task, poll_cases}

abbrev FreeTask : Task → Controls → Type 0
FreeTask (driving d _ _ _ _) c = blocked c d ≡ none
FreeTask _ c = Unit {0}

-- If the gate is in a movement, nothing blocks it.
abbrev pub IsFree : Gate → Type 0
IsFree g = FreeTask g.task g.controls

module _ ⦃ticks : Ticks⦄ where
  finish-IsFree :
      (now : ℕ) (moved : Bool) (p : Option GateCommand) (g : Gate) → IsFree (finish now moved p g)
  unfolding finish
  finish-IsFree now moved p g = tt

  suspend-IsFree :
      (next : Option ℕ) (d : Direction) (now : ℕ) (ta tb : Turn) (g : Gate)
      → blocked g.controls d ≡ none
      → IsFree (suspend next d now ta tb g)
  unfolding suspend
  suspend-IsFree none d now ta tb g free = finish-IsFree now tb.moved none g
  suspend-IsFree (some deadline) d now ta tb g free = free

  round-IsFree :
      (d : Direction) (now : ℕ) (a b : Phase) (moved : Bool) (g : Gate)
      → IsFree (round d now a b moved g)
  unfolding round
  round-IsFree d now a b moved g = elim (Option-cases (blocked g.controls d)) [
    | inl free ↦
        let ta = a_turn d now a moved g in
        let tb = b_turn d now b ta g in
        rw (free, round)
          (suspend-IsFree tb.next_deadline d now ta tb (record g { a = ta.motor; b = tb.motor })
            free)
    | inr (_, stuck) ↦ rw (stuck, round) (finish-IsFree now moved none g)
  ]

  drive-IsFree : (d : Direction) (now : ℕ) (g : Gate) → IsFree (drive d now g)
  unfolding drive
  drive-IsFree d now g = elim (Option-cases (blocked g.controls d)) [
    | inl free ↦
        rw (free, drive)
          (round-IsFree d now _ _ false
            (notify (record g { controls = set_direction d g.controls })))
    | inr (_, stuck) ↦ rw (stuck, drive) tt
  ]

  run_command-IsFree : (cmd : GateCommand) (now : ℕ) (g : Gate) → IsFree (run_command cmd now g)
  unfolding execute
  run_command-IsFree open_gate now g = drive-IsFree opening now g
  run_command-IsFree close_gate now g = drive-IsFree closing now g
  run_command-IsFree stop_gate now g = tt
  run_command-IsFree press_impulse now g = tt

  execute-IsFree : (cmd : GateCommand) (now : ℕ) (g : Gate) → IsFree (execute cmd now g)
  unfolding execute
  execute-IsFree cmd now g = run_command-IsFree (resolve_impulse g.controls cmd) now g

  begin_step-IsFree : (p : Option GateCommand) (now : ℕ) (g : Gate) → IsFree (begin_step p now g)
  unfolding begin_step
  begin_step-IsFree (some cmd) now g = execute-IsFree cmd now (record g { pending = none })
  begin_step-IsFree none now g = tt

  heard-IsFree :
      (p : Option GateCommand) (now : ℕ) (g : Gate) → is_some p ≡ true → IsFree (heard p now g)
  unfolding heard
  heard-IsFree (some cmd) now g h = execute-IsFree cmd now (taken_command g)
  heard-IsFree none now g h = cc

  settle-IsFree : (g : Gate) → IsFree (settle g)
  unfolding settle
  settle-IsFree g = tt

  resting-IsFree :
      (t : Task) (k : Wake) (now : ℕ) (g : Gate)
      → is_driving t ≡ false
      → ready_at_task t k now g.controls ≡ true
      → IsFree (resume_at t k now g)
  unfolding resume_at
  resting-IsFree (driving _ _ _ _ _) k now g r h = cc
  resting-IsFree (returned s) step_called now g r h = begin_step-IsFree g.pending now g
  resting-IsFree listening command now g r h = heard-IsFree g.controls.command now g h
  resting-IsFree listening wind_lock_reset now g r h =
      if-true IsFree g.controls.wind_lock_reset g h (settle-IsFree (taken_reset g))
  resting-IsFree _ _ now g r h = cc

  resume-IsFree :
      (t : Task) (k : Wake) (now : ℕ) (g : Gate)
      → g.task ≡ t
      → is_ready k now g ≡ true
      → IsFree (resume k now g)
  unfolding resume
  resume-IsFree (driving d a b moved deadline) k now g t h =
      poll_cases IsFree now d a b moved g (λ p g' _. finish-IsFree now moved p g')
        (λ g' _. round-IsFree d now a b moved g') k deadline t (λ n. cc)
  resume-IsFree (returned s) k now g t h =
      subst (λ x. IsFree (resume_at x k now g)) (sym t)
        (resting-IsFree (returned s) k now g refl
          (subst (λ x. ready_at_task x k now g.controls ≡ true) t h))
  resume-IsFree listening k now g t h =
      subst (λ x. IsFree (resume_at x k now g)) (sym t)
        (resting-IsFree listening k now g refl
          (subst (λ x. ready_at_task x k now g.controls ≡ true) t h))

  -- After any poll with a future ready, in any state of the gate, if the gate is in a movement then
  -- neither a light barrier nor the wind lock blocks that movement: no blocked movement is started,
  -- and none is continued.
  pub poll_leaves_unblocked :
      (k : Wake) (now : ℕ) (g : Gate) (d : Direction) (a b : Phase) (moved : Bool) (deadline : ℕ)
      → is_ready k now g ≡ true
      → (resume k now g).task ≡ driving d a b moved deadline
      → blocked (resume k now g).controls d ≡ none
  poll_leaves_unblocked k now g d a b moved deadline h t =
      subst (λ s. FreeTask s (resume k now g).controls) t (resume-IsFree g.task k now g refl h)
