-- ===== src/Physical/Scenarios.antt =====
-- src/physical/gate.rs: a storm while the gate closes, a start with the lock restored, and a run.
use gate_link.Prelude.{◌≤◌, ◌≡◌, refl, true, false, none, List, [], ◌∷◌, arith}
use gate_link.Time.{Ticks, micros}
use gate_link.Motor.{opening, run_time, travelled}
use gate_link.Controls.{call_open, call_close, call_barrier1_set, call_impulse, cover_state}
use gate_link.Controls
use gate_link.Gate.Cover.{cover_of, shown}
use gate_link.Gate.World.Refinement.Runs.{FollowsAll}
use gate_link.Gate.Progress.Lateness.{Short}
use gate_link.Gate.World.{
  World, Event, pass, call, wake, step_called, command, timer, barrier_changed, happen, run,
}
use gate_link.Gate.World.Locked.{NoReset}
use gate_link.Physical.{boot}
use gate_link.Physical.Safety.{side_a}
use gate_link.Physical.Bounds.{settings_a, settings_b, exact_run_time, exact_travelled, after-exact}
use gate_link.Physical.Storm.{NotDropped, tripped, wind_command_kept, restored_lock_kept}
use gate_link.Physical.Refinement.{restored_cover, gate-Cover}

instance abbrev clock : Ticks
clock = micros

-- An open gate closes for four seconds.
abbrev closes : List Event
closes = wake step_called ∷ call call_close ∷ wake command ∷ pass 4_000_000 ∷ wake timer ∷ []

-- The guard's command is taken, light barrier 1 is broken and clear again, and someone presses.
abbrev storm : List Event
storm =
    wake command
    ∷ wake step_called
    ∷ pass 1_000_000
    ∷ call (call_barrier1_set true)
    ∷ wake barrier_changed
    ∷ call (call_barrier1_set false)
    ∷ call call_impulse
    ∷ wake step_called
    ∷ []

storm-NoReset : NoReset storm
storm-NoReset = (refl, (refl, (refl, (refl, (refl, (refl, (refl, (refl, tt))))))))

abbrev stormy : World
stormy = tripped 0 Controls.new 255 255 false (omega arith) (omega arith) closes storm

stormy_early : Short stormy.now
unfolding run happen boot
stormy_early = omega arith

wind_command_kept_example :
    (stormy.gate.controls.wind_locked ≡ true) × NotDropped stormy.gate.task stormy.gate
wind_command_kept_example =
    wind_command_kept 0 Controls.new 255 255 false (omega arith) (omega arith) closes storm
      storm-NoReset stormy_early

abbrev locked_start : World
locked_start = run storm (boot 0 Controls.new (settings_a 100) (settings_b 0) true)

locked_early : Short locked_start.now
unfolding run happen boot
locked_early = omega arith

nothing_called : Controls.new.command ≡ none
unfolding Controls.new
nothing_called = refl

restored_lock_kept_example :
    (locked_start.gate.controls.wind_locked ≡ true)
    × NotDropped locked_start.gate.task locked_start.gate
restored_lock_kept_example =
    restored_lock_kept 0 Controls.new 100 0 storm (omega arith) (omega arith) nothing_called
      storm-NoReset locked_early

abbrev closing_gate : World
closing_gate = run closes (boot 0 Controls.new (settings_a 255) (settings_b 255) false)

closing_early : Short closing_gate.now
unfolding run happen boot
closing_early = omega arith

after-exact_example :
    (closing_gate.gate.a.position ≤ 255)
    × (run_time closing_gate.gate.a opening ≡ exact_run_time closing_gate.gate.a opening)
    × (travelled closing_gate.gate.a opening 3_000_000 closing_gate.now
        ≡ exact_travelled closing_gate.gate.a opening 3_000_000 closing_gate.now)
after-exact_example =
    after-exact 0 Controls.new 255 255 false closes side_a opening 3_000_000 (omega arith)
      (omega arith) closing_early

gate-Cover_example :
    FollowsAll closes (restored_cover Controls.new 255 255 false) (cover_of closing_gate.gate)
    × (cover_state closing_gate.gate.controls ≡ shown (cover_of closing_gate.gate))
gate-Cover_example =
    gate-Cover 0 Controls.new 255 255 false closes (omega arith) (omega arith) closing_early
