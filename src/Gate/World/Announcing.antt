-- ===== src/Gate/World/Announcing.antt =====
-- What the gate task does to the signal of the warning light.
use gate_link.Prelude.{
  ℕ, Bool, false, leb, if-intro, inl, inr, Option-cases, Option, none, some, arith,
}
use gate_link.Time.{Ticks}
use gate_link.Motor.{Direction, opening, closing, stop}
use gate_link.Controls.{
  GateCommand, open_gate, close_gate, stop_gate, press_impulse, resolve_impulse, command_for,
  blocked, warning_light_active, set_direction,
}
use gate_link.Controls.Lighting.{Announced, set_direction-Announced}
use gate_link.Gate.{
  Phase, Task, returned, listening, driving, Gate, Turn, notify, settle, halt, finish, suspend,
  round, drive, plan, run_command, execute, a_turn, b_turn,
}
use gate_link.Gate.World.{
  Wake, step_called, timer, command, barrier_changed, wind_lock_reset, same_command, taken_command,
  taken_barrier, taken_reset, begin_step, heard, interrupted, handed_back, resume_at, resume,
}

abbrev pub Announces : Gate → Type 0
Announces g = Announced g.controls

settle-Announces : (g : Gate) → Announces g → Announces (settle g)
unfolding settle warning_light_active
settle-Announces g h = ground arith

module _ ⦃ticks : Ticks⦄ where
  finish-Announces :
      (now : ℕ) (moved : Bool) (p : Option GateCommand) (g : Gate)
      → Announces g
      → Announces (finish now moved p g)
  unfolding finish warning_light_active
  finish-Announces now moved p g h = ground arith

  suspend-Announces :
      (next : Option ℕ) (d : Direction) (now : ℕ) (ta tb : Turn) (g : Gate)
      → Announces g
      → Announces (suspend next d now ta tb g)
  unfolding suspend
  suspend-Announces none d now ta tb g h = finish-Announces now tb.moved none g h
  suspend-Announces (some deadline) d now ta tb g h = h

  round-Announces :
      (d : Direction) (now : ℕ) (a b : Phase) (moved : Bool) (g : Gate)
      → Announces g
      → Announces (round d now a b moved g)
  unfolding round
  round-Announces d now a b moved g h = elim (Option-cases (blocked g.controls d)) [
    | inl free ↦
        let ta = a_turn d now a moved g in
        let tb = b_turn d now b ta g in
        rw (free, round)
          (suspend-Announces tb.next_deadline d now ta tb (record g { a = ta.motor; b = tb.motor })
            h)
    | inr (_, stuck) ↦ rw (stuck, round) (finish-Announces now moved none g h)
  ]

  drive-Announces : (d : Direction) (now : ℕ) (g : Gate) → Announces g → Announces (drive d now g)
  unfolding drive
  drive-Announces d now g h = elim (Option-cases (blocked g.controls d)) [
    | inl free ↦
        let g' = notify (record g { controls = set_direction d g.controls }) in
        rw (free, drive)
          (round-Announces d now (plan g.a d now) (plan g.b d now) false g'
            (set_direction-Announced d g.controls))
    | inr (_, stuck) ↦ rw (stuck, drive) (settle-Announces (record g { pending = none }) h)
  ]

  halt-Announces : (now : ℕ) (g : Gate) → Announces g → Announces (halt now g)
  unfolding halt warning_light_active
  halt-Announces now g h =
      settle-Announces (record g { a = stop now g.a; b = stop now g.b; pending = none }) h

  run_command-Announces :
      (cmd : GateCommand) (now : ℕ) (g : Gate) → Announces g → Announces (run_command cmd now g)
  unfolding run_command
  run_command-Announces open_gate now g h = drive-Announces opening now g h
  run_command-Announces close_gate now g h = drive-Announces closing now g h
  run_command-Announces stop_gate now g h = halt-Announces now g h
  run_command-Announces press_impulse now g h = halt-Announces now g h

  execute-Announces :
      (cmd : GateCommand) (now : ℕ) (g : Gate) → Announces g → Announces (execute cmd now g)
  unfolding execute
  execute-Announces cmd now g h = run_command-Announces (resolve_impulse g.controls cmd) now g h

  begin_step-Announces :
      (p : Option GateCommand) (now : ℕ) (g : Gate) → Announces g → Announces (begin_step p now g)
  unfolding begin_step
  begin_step-Announces (some cmd) now g h =
      execute-Announces cmd now (record g { pending = none }) h
  begin_step-Announces none now g h = h

  heard-Announces :
      (p : Option GateCommand) (now : ℕ) (g : Gate) → Announces g → Announces (heard p now g)
  unfolding heard taken_command warning_light_active
  heard-Announces (some cmd) now g h = execute-Announces cmd now (taken_command g) h
  heard-Announces none now g h = h

  interrupted-Announces :
      (p : Option GateCommand) (d : Direction) (now : ℕ) (a b : Phase) (moved : Bool) (g : Gate)
      → Announces g
      → Announces (interrupted p d now a b moved g)
  unfolding interrupted taken_command warning_light_active
  interrupted-Announces none d now a b moved g h = h
  interrupted-Announces (some cmd) d now a b moved g h =
      if-intro Announces (same_command cmd (command_for d))
        (λ _. round-Announces d now a b moved (taken_command g) h)
        (λ _. finish-Announces now moved (handed_back cmd) (taken_command g) h)

  resume_at-Announces :
      (t : Task) (k : Wake) (now : ℕ) (g : Gate) → Announces g → Announces (resume_at t k now g)
  unfolding resume_at warning_light_active
  resume_at-Announces (returned _) step_called now g h = begin_step-Announces g.pending now g h
  resume_at-Announces listening command now g h = heard-Announces g.controls.command now g h
  resume_at-Announces listening wind_lock_reset now g h =
      if-intro Announces g.controls.wind_lock_reset (λ _. settle-Announces (taken_reset g) h)
        (λ _. h)
  resume_at-Announces (driving d a b moved deadline) timer now g h =
      if-intro Announces (leb deadline now) (λ _. round-Announces d now a b moved g h) (λ _. h)
  resume_at-Announces (driving d a b moved deadline) command now g h =
      interrupted-Announces g.controls.command d now a b moved g h
  resume_at-Announces (driving d a b moved deadline) barrier_changed now g h =
      if-intro Announces g.controls.barrier_changed
        (λ _. round-Announces d now a b moved (taken_barrier g) h) (λ _. h)
  resume_at-Announces (driving d a b moved deadline) wind_lock_reset now g h =
      if-intro Announces g.controls.wind_lock_reset
        (λ _. round-Announces d now a b moved (notify (taken_reset g)) h) (λ _. h)
  resume_at-Announces _ _ now g h = h

  -- A movement that starts is announced to the warning light.
  pub resume-Announces : (k : Wake) (now : ℕ) (g : Gate) → Announces g → Announces (resume k now g)
  unfolding resume
  resume-Announces k now g h = resume_at-Announces g.task k now g h
