-- ===== src/Gate/World.antt =====
-- gate-core/src/gate.rs: the `await`s of `step` and `drive`, and the gate among the other tasks.
-- A `select` gives the output of one of its futures that is ready. Which one is left to the
-- schedule, as is when the gate task is polled: a `Wake` names the future, and if that is not
-- ready the poll changes nothing.
mod Examples
pub mod Rounds
pub mod Completion
pub mod Polls
pub mod Reversal
pub mod Allowed
pub mod Announcing
pub mod Storm
pub mod Locked
pub mod Course
pub mod Pursuit
pub mod Refinement
pub mod Safety
pub mod Moved
pub mod Spent
use gate_link.Prelude.{
  ℕ, ◌+◌, Bool, true, false, leb, if◌then◌else◌, Option, none, some, List, [], ◌∷◌,
}
use gate_link.Time.{Ticks}
use gate_link.Motor.{Direction}
use gate_link.Controls.{
  GateCommand, open_gate, close_gate, stop_gate, press_impulse, command_for, Call, apply_call,
}
use gate_link.Gate.{
  Phase, Task, returned, listening, driving, Gate, notify, settle, finish, round, execute,
}

-- The caller calls `step` again; the timer, the command, the barrier signal or the reset is ready.
pub data Wake : Type 0 where
  step_called timer command barrier_changed wind_lock_reset : Wake

abbrev same_command : GateCommand → GateCommand → Bool
same_command open_gate open_gate = true
same_command close_gate close_gate = true
same_command stop_gate stop_gate = true
same_command press_impulse press_impulse = true
same_command _ _ = false

handed_back : GateCommand → Option GateCommand
handed_back stop_gate = none
handed_back press_impulse = none
handed_back cmd = some cmd

taken_command : Gate → Gate
taken_command g = let c = g.controls in record g { controls = record c { command = none } }

taken_barrier : Gate → Gate
taken_barrier g = let c = g.controls in record g { controls = record c { barrier_changed = false } }

taken_reset : Gate → Gate
taken_reset g = let c = g.controls in record g { controls = record c { wind_lock_reset = false } }

module _ ⦃ticks : Ticks⦄ where
  -- The start of `step`.
  begin_step : Option GateCommand → ℕ → Gate → Gate
  unfolding execute
  begin_step (some cmd) now g = execute cmd now (record g { pending = none })
  begin_step none now g = record g { task = listening }

  heard : Option GateCommand → ℕ → Gate → Gate
  unfolding execute taken_command
  heard (some cmd) now g = execute cmd now (taken_command g)
  heard none now g = g

  interrupted : Option GateCommand → Direction → ℕ → Phase → Phase → Bool → Gate → Gate
  unfolding taken_command handed_back round finish
  interrupted (some cmd) d now a b moved g =
      if same_command cmd (command_for d)
      then round d now a b moved (taken_command g)
      else finish now moved (handed_back cmd) (taken_command g)
  interrupted none d now a b moved g = g

  resume_at : Task → Wake → ℕ → Gate → Gate
  unfolding begin_step heard interrupted taken_barrier taken_reset
  resume_at (returned _) step_called now g = begin_step g.pending now g
  resume_at listening command now g = heard g.controls.command now g
  resume_at listening wind_lock_reset now g =
      if g.controls.wind_lock_reset then settle (taken_reset g) else g
  resume_at (driving d a b moved deadline) timer now g =
      if leb deadline now then round d now a b moved g else g
  resume_at (driving d a b moved deadline) command now g =
      interrupted g.controls.command d now a b moved g
  resume_at (driving d a b moved deadline) barrier_changed now g =
      if g.controls.barrier_changed then round d now a b moved (taken_barrier g) else g
  resume_at (driving d a b moved deadline) wind_lock_reset now g =
      if g.controls.wind_lock_reset then round d now a b moved (notify (taken_reset g)) else g
  resume_at _ _ now g = g

  unfoldable pub resume : Wake → ℕ → Gate → Gate
  unfolding resume_at
  resume w now g = resume_at g.task w now g

pub record World : Type 0 where
  pub now : ℕ
  pub gate : Gate

-- Time passes, another task makes a call, or the gate task is polled.
pub data Event : Type 0 where
  pass : ℕ → Event
  call : Call → Event
  wake : Wake → Event

module _ ⦃ticks : Ticks⦄ where
  unfoldable pub happen : Event → World → World
  unfolding resume
  happen (pass time) w = record w { now = w.now + time }
  happen (call k) w =
      let g = w.gate in record w { gate = record g { controls = apply_call k g.controls } }
  happen (wake k) w = record w { gate = resume k w.now w.gate }

  unfoldable pub run : List Event → World → World
  unfolding happen
  run [] w = w
  run (e ∷ es) w = run es (happen e w)
