-- ===== src/Gate/World/Locked.antt =====
-- The gate task while the wind lock is engaged.
use gate_link.Prelude.{
  ℕ, ◌≡◌, ◌≢◌, refl, Bool, true, false, leb, if-intro, inl, inr, Option-cases, Option, none, some,
  List, [], ◌∷◌, All, arith,
}
use gate_link.Time.{Ticks}
use gate_link.Motor.{Direction, opening, closing}
use gate_link.Controls.{
  Controls, GateCommand, open_gate, close_gate, stop_gate, press_impulse, resolve_impulse,
  command_for, blocked, set_direction, Call, call_reset_wind_lock, apply_call,
}
use gate_link.Gate.{
  Phase, Task, returned, listening, driving, Gate, Turn, notify, settle, halt, finish, suspend,
  round, drive, plan, run_command, execute, a_turn, b_turn,
}
use gate_link.Gate.World.{
  Wake, step_called, timer, command, barrier_changed, wind_lock_reset, same_command, taken_command,
  taken_barrier, taken_reset, begin_step, heard, interrupted, handed_back, resume_at, resume, World,
  Event, pass, call, wake, happen, run,
}

abbrev pub closes : Task → Bool
closes (driving closing _ _ _ _) = true
closes _ = false

abbrev pub IsLocked : Gate → Type 0
IsLocked g = (g.controls.wind_locked ≡ true) × (closes g.task ≡ false)

-- Every event but a call that resets the lock.
abbrev pub is_reset : Event → Bool
is_reset (call call_reset_wind_lock) = true
is_reset _ = false

abbrev pub NoReset : List Event → Type 0
NoReset = All (λ e. is_reset e ≡ false)

pub closing_blocked : (c : Controls) → c.wind_locked ≡ true → blocked c closing ≢ none
unfolding blocked
closing_blocked c h e = ground arith

module _ ⦃ticks : Ticks⦄ where
  settle-IsLocked : (g : Gate) → g.controls.wind_locked ≡ true → IsLocked (settle g)
  unfolding settle notify
  settle-IsLocked g h = (h, refl)

  finish-IsLocked :
      (now : ℕ) (moved : Bool) (p : Option GateCommand) (g : Gate)
      → g.controls.wind_locked ≡ true
      → IsLocked (finish now moved p g)
  unfolding finish settle notify
  finish-IsLocked now moved p g h = (h, refl)

  suspend-IsLocked :
      (next : Option ℕ) (now : ℕ) (ta tb : Turn) (g : Gate)
      → g.controls.wind_locked ≡ true
      → IsLocked (suspend next opening now ta tb g)
  unfolding suspend
  suspend-IsLocked none now ta tb g h = finish-IsLocked now tb.moved none g h
  suspend-IsLocked (some deadline) now ta tb g h = (h, refl)

  round-IsLocked :
      (now : ℕ) (a b : Phase) (moved : Bool) (g : Gate)
      → g.controls.wind_locked ≡ true
      → IsLocked (round opening now a b moved g)
  unfolding round
  round-IsLocked now a b moved g h = elim (Option-cases (blocked g.controls opening)) [
    | inl free ↦
        let ta = a_turn opening now a moved g in
        let tb = b_turn opening now b ta g in
        rw (free, round)
          (suspend-IsLocked tb.next_deadline now ta tb (record g { a = ta.motor; b = tb.motor }) h)
    | inr (_, stuck) ↦ rw (stuck, round) (finish-IsLocked now moved none g h)
  ]

  begun-IsLocked :
      (d : Direction) (now : ℕ) (g : Gate)
      → g.controls.wind_locked ≡ true
      → blocked g.controls d ≡ none
      → IsLocked (
          round d now
            (plan g.a d now)
            (plan g.b d now)
            false
            (notify (record g { controls = set_direction d g.controls })))
  unfolding set_direction notify
  begun-IsLocked opening now g h free =
      round-IsLocked now (plan g.a opening now) (plan g.b opening now) false
        (notify (record g { controls = set_direction opening g.controls })) h
  begun-IsLocked closing now g h free = absurd (closing_blocked g.controls h free)

  drive-IsLocked :
      (d : Direction) (now : ℕ) (g : Gate)
      → g.controls.wind_locked ≡ true
      → IsLocked (drive d now g)
  unfolding drive set_direction notify
  drive-IsLocked d now g h = elim (Option-cases (blocked g.controls d)) [
    | inl free ↦ rw (free, drive) (begun-IsLocked d now g h free)
    | inr (_, stuck) ↦ rw (stuck, drive) (settle-IsLocked (record g { pending = none }) h)
  ]

  run_command-IsLocked :
      (cmd : GateCommand) (now : ℕ) (g : Gate)
      → g.controls.wind_locked ≡ true
      → IsLocked (run_command cmd now g)
  unfolding run_command halt settle notify
  run_command-IsLocked open_gate now g h = drive-IsLocked opening now g h
  run_command-IsLocked close_gate now g h = drive-IsLocked closing now g h
  run_command-IsLocked stop_gate now g h = (h, refl)
  run_command-IsLocked press_impulse now g h = (h, refl)

  execute-IsLocked :
      (cmd : GateCommand) (now : ℕ) (g : Gate)
      → g.controls.wind_locked ≡ true
      → IsLocked (execute cmd now g)
  unfolding execute
  execute-IsLocked cmd now g h = run_command-IsLocked (resolve_impulse g.controls cmd) now g h

  begin_step-IsLocked :
      (p : Option GateCommand) (now : ℕ) (g : Gate)
      → g.controls.wind_locked ≡ true
      → IsLocked (begin_step p now g)
  unfolding begin_step
  begin_step-IsLocked (some cmd) now g h = execute-IsLocked cmd now (record g { pending = none }) h
  begin_step-IsLocked none now g h = (h, refl)

  heard-IsLocked :
      (p : Option GateCommand) (now : ℕ) (g : Gate) → IsLocked g → IsLocked (heard p now g)
  unfolding heard taken_command
  heard-IsLocked (some cmd) now g h = execute-IsLocked cmd now (taken_command g) h.0
  heard-IsLocked none now g h = h

  interrupted-IsLocked :
      (p : Option GateCommand) (now : ℕ) (a b : Phase) (moved : Bool) (g : Gate)
      → IsLocked g
      → IsLocked (interrupted p opening now a b moved g)
  unfolding interrupted taken_command
  interrupted-IsLocked none now a b moved g h = h
  interrupted-IsLocked (some cmd) now a b moved g h =
      if-intro IsLocked (same_command cmd (command_for opening))
        (λ _. round-IsLocked now a b moved (taken_command g) h.0)
        (λ _. finish-IsLocked now moved (handed_back cmd) (taken_command g) h.0)

  resume_at-IsLocked :
      (t : Task) (k : Wake) (now : ℕ) (g : Gate)
      → closes t ≡ false
      → IsLocked g
      → IsLocked (resume_at t k now g)
  unfolding resume_at taken_barrier taken_reset notify
  resume_at-IsLocked (driving closing a b moved deadline) k now g n h = absurd (ground arith)
  resume_at-IsLocked (returned _) step_called now g n h = begin_step-IsLocked g.pending now g h.0
  resume_at-IsLocked listening command now g n h = heard-IsLocked g.controls.command now g h
  resume_at-IsLocked listening wind_lock_reset now g n h =
      if-intro IsLocked g.controls.wind_lock_reset (λ _. settle-IsLocked (taken_reset g) h.0)
        (λ _. h)
  resume_at-IsLocked (driving opening a b moved deadline) timer now g n h =
      if-intro IsLocked (leb deadline now) (λ _. round-IsLocked now a b moved g h.0) (λ _. h)
  resume_at-IsLocked (driving opening a b moved deadline) command now g n h =
      interrupted-IsLocked g.controls.command now a b moved g h
  resume_at-IsLocked (driving opening a b moved deadline) barrier_changed now g n h =
      if-intro IsLocked g.controls.barrier_changed
        (λ _. round-IsLocked now a b moved (taken_barrier g) h.0) (λ _. h)
  resume_at-IsLocked (driving opening a b moved deadline) wind_lock_reset now g n h =
      if-intro IsLocked g.controls.wind_lock_reset
        (λ _. round-IsLocked now a b moved (notify (taken_reset g)) h.0) (λ _. h)
  resume_at-IsLocked _ _ now g n h = h

  call-locked :
      (k : Call) (c : Controls)
      → is_reset (call k) ≡ false
      → c.wind_locked ≡ true
      → (apply_call k c).wind_locked ≡ true
  unfolding apply_call
  call-locked k c n h = ground arith

  happen-IsLocked :
      (e : Event) (w : World) → is_reset e ≡ false → IsLocked w.gate → IsLocked (happen e w).gate
  unfolding happen resume
  happen-IsLocked (pass time) w n h = h
  happen-IsLocked (call k) w n h = (call-locked k w.gate.controls n h.0, h.1)
  happen-IsLocked (wake k) w n h = resume_at-IsLocked w.gate.task k w.now w.gate h.1 h

  -- Once the wind lock is engaged and the gate does not close, then whatever the other tasks call but
  -- a reset of the lock, however time passes and whenever the gate task is polled: the lock stays
  -- engaged, and the gate is never in a closing movement.
  pub run-IsLocked :
      (es : List Event) (w : World) → NoReset es → IsLocked w.gate → IsLocked (run es w).gate
  unfolding run
  run-IsLocked [] w n h = h
  run-IsLocked (e ∷ es) w (n, ns) h = run-IsLocked es (happen e w) ns (happen-IsLocked e w n h)
