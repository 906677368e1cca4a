-- ===== src/Physical/Examples.antt =====
-- Runs of the installation's gate, and the theorems about it at such runs.
use gate_link.Prelude.{◌+◌, ◌≤◌, ◌≡◌, ◌⊎◌, ◌||◌, refl, true, false, some, List, [], ◌∷◌, arith}
use gate_link.Time.{Ticks, micros}
use gate_link.Motor.{closing, opening, open_pin}
use gate_link.Motor
use gate_link.Motor.Relays.{Exclusive, is_high, relay_of, other_relay}
use gate_link.Controls.{
  call_close, dir_opening, Snapshot, open_gate, Controls, call_open, call_stop, call_impulse,
  call_barrier1_set, call_barrier2_set, call_set_barrier_bypass, apply_call, blocked,
  barrier1_interrupted, cover_state, is_open, is_closed, press_impulse, pos_partial,
  resolve_impulse, command_for, is_opening, wind_lock_engaged, call_wind_trigger,
}
use gate_link.Controls
use gate_link.Controls.Blocking.{is_some}
use gate_link.Controls.Impulse.{opposite}
use gate_link.Gate.{done, Gate, driving, waiting, running}
use gate_link.Gate
use gate_link.Gate.World.{
  World, Event, pass, call, wake, step_called, timer, command, barrier_changed, run, resume,
}
use gate_link.Gate.World.Polls.{is_driving, is_ready}
use gate_link.Physical.{MotorSettings, boot}
use gate_link.Physical.Config
use gate_link.Physical.Safety.{
  Released, side_a, relays-Exclusive, Released-at_rest, blocked_movement_alerted,
  blocked_movement_stops, running_leaf_rested, trips, steps_after, wind_trigger_reverses,
  impulse_stops_and_reverses, leaf,
}
use gate_link.Physical.Bypass.{bypass_used_up}
use gate_link.Gate.World.Spent.{StaysDriving}

instance abbrev clock : Ticks
clock = micros

abbrev closed_a : MotorSettings
closed_a = record { timing = Config.leaf_a; initial_position = 0 }

abbrev closed_b : MotorSettings
closed_b = record { timing = Config.leaf_b; initial_position = 0 }

abbrev start : World
start = boot 0 Controls.new closed_a closed_b false

-- An open command is taken up, and the gate moves for a second.
abbrev opens : List Event
opens = wake step_called ∷ call call_open ∷ wake command ∷ pass 1_000_000 ∷ []

abbrev breaks_barrier1 : List Event
breaks_barrier1 =
    wake step_called
    ∷ call call_open
    ∷ wake command
    ∷ pass 1_000_000
    ∷ call (call_barrier1_set true)
    ∷ []

abbrev presses_again : List Event
presses_again =
    wake step_called
    ∷ call call_open
    ∷ wake command
    ∷ pass 4_000_000
    ∷ wake timer
    ∷ pass 1_000_000
    ∷ call call_impulse
    ∷ []

-- Stopped on the way and opened again after a second of rest.
abbrev reopens : List Event
reopens =
    wake step_called
    ∷ call call_open
    ∷ wake command
    ∷ pass 2_000_000
    ∷ call call_stop
    ∷ wake command
    ∷ pass 1_500_000
    ∷ wake step_called
    ∷ call call_open
    ∷ wake command
    ∷ []

opens_task :
    (run opens start).gate.task
    ≡ driving opening (running 16_000_000) (waiting 3_000_000) true 3_000_000
unfolding run boot apply_call Gate.new Controls.new resolve_impulse blocked Controls.set_direction
    Motor.run_time Motor.new Motor.initial_delay Motor.ready_at command_for Motor.stop Motor.start
opens_task = refl

broken_blocked :
    blocked (run breaks_barrier1 start).gate.controls opening ≡ some barrier1_interrupted
unfolding run boot apply_call Gate.new Controls.new resolve_impulse blocked Controls.set_direction
    Motor.run_time Motor.new Motor.initial_delay Motor.ready_at command_for Motor.stop Motor.start
broken_blocked = refl

relays-Exclusive_example :
    Exclusive (run opens start).gate.a.writes × Exclusive (run opens start).gate.b.writes
relays-Exclusive_example =
    relays-Exclusive 0 Controls.new closed_a closed_b false (omega arith) (omega arith) opens

rests : is_driving (run [] start).gate.task ≡ false
unfolding run boot apply_call Gate.new Controls.new resolve_impulse blocked Controls.set_direction
    Motor.run_time Motor.new Motor.initial_delay Motor.ready_at command_for Motor.stop Motor.start
rests = refl

Released-at_rest_example :
    Released (run [] start).gate
    × ((cover_state (run [] start).gate.controls ≡ is_open)
        ⊎ (cover_state (run [] start).gate.controls ≡ is_closed))
Released-at_rest_example =
    Released-at_rest 0 Controls.new closed_a closed_b false (omega arith) (omega arith) [] rests

broken_task :
    (run breaks_barrier1 start).gate.task
    ≡ driving opening (running 16_000_000) (waiting 3_000_000) true 3_000_000
unfolding run boot apply_call Gate.new Controls.new resolve_impulse blocked Controls.set_direction
    Motor.run_time Motor.new Motor.initial_delay Motor.ready_at command_for Motor.stop Motor.start
broken_task = refl

blocked_movement_alerted_example :
    (run breaks_barrier1 start).gate.controls.barrier_changed
      || is_some (run breaks_barrier1 start).gate.controls.command
    ≡ true
blocked_movement_alerted_example =
    blocked_movement_alerted 0 Controls.new closed_a closed_b false (omega arith) (omega arith)
      breaks_barrier1 opening (running 16_000_000) (waiting 3_000_000) true 3_000_000
      barrier1_interrupted broken_task broken_blocked

barrier_ready :
    is_ready barrier_changed (run breaks_barrier1 start).now (run breaks_barrier1 start).gate ≡ true
unfolding run boot apply_call Gate.new Controls.new resolve_impulse blocked Controls.set_direction
    Motor.run_time Motor.new Motor.initial_delay Motor.ready_at command_for Motor.stop Motor.start
barrier_ready = refl

blocked_movement_stops_example :
    (is_driving
        (resume barrier_changed
          (run breaks_barrier1 start).now
          (run breaks_barrier1 start).gate).task
      ≡ false)
    × Released
        (resume barrier_changed (run breaks_barrier1 start).now (run breaks_barrier1 start).gate)
blocked_movement_stops_example =
    blocked_movement_stops 0 Controls.new closed_a closed_b false (omega arith) (omega arith)
      breaks_barrier1 opening (running 16_000_000) (waiting 3_000_000) true 3_000_000
      barrier1_interrupted barrier_changed broken_task broken_blocked barrier_ready

runs_again : (run reopens start).gate.a.state ≡ Motor.running opening 3_500_000
unfolding run boot apply_call Gate.new Controls.new resolve_impulse blocked Controls.set_direction
    Motor.run_time Motor.new Motor.initial_delay Motor.ready_at command_for Motor.stop Motor.start
runs_again = refl

stopped_before : (run reopens start).gate.a.stopped_at ≡ some 2_000_000
unfolding run boot apply_call Gate.new Controls.new resolve_impulse blocked Controls.set_direction
    Motor.run_time Motor.new Motor.initial_delay Motor.ready_at command_for Motor.stop Motor.start
stopped_before = refl

running_leaf_rested_example :
    (2_000_000 + (run reopens start).gate.a.reverse_pause ≤ 3_500_000)
    × (is_high (relay_of opening) (run reopens start).gate.a.writes ≡ true)
    × (is_high (other_relay opening) (run reopens start).gate.a.writes ≡ false)
running_leaf_rested_example =
    running_leaf_rested 0 Controls.new closed_a closed_b false (omega arith) (omega arith) reopens
      side_a opening 3_500_000 2_000_000 runs_again stopped_before

pressed_task :
    (run presses_again start).gate.task
    ≡ driving opening (running 16_000_000) (running 20_000_000) true 16_000_000
unfolding run boot apply_call Gate.new Controls.new resolve_impulse blocked Controls.set_direction
    Motor.run_time Motor.new Motor.initial_delay Motor.ready_at command_for Motor.stop Motor.start
pressed_task = refl

pressed_command : (run presses_again start).gate.controls.command ≡ some press_impulse
unfolding run boot apply_call Gate.new Controls.new resolve_impulse blocked Controls.set_direction
    Motor.run_time Motor.new Motor.initial_delay Motor.ready_at command_for Motor.stop Motor.start
pressed_command = refl

halfway :
    (resume command (run presses_again start).now (run presses_again start).gate).controls.position
    ≡ pos_partial
unfolding run boot apply_call Gate.new Controls.new resolve_impulse blocked Controls.set_direction
    Motor.run_time Motor.new Motor.initial_delay Motor.ready_at command_for Motor.stop Motor.start
halfway = refl

impulse_stops_and_reverses_example :
    (is_driving (resume command (run presses_again start).now (run presses_again start).gate).task
      ≡ false)
    × Released (resume command (run presses_again start).now (run presses_again start).gate)
    × (resolve_impulse
          (resume command (run presses_again start).now (run presses_again start).gate).controls
          press_impulse
        ≡ command_for (opposite opening))
impulse_stops_and_reverses_example =
    impulse_stops_and_reverses 0 Controls.new closed_a closed_b false (omega arith) (omega arith)
      presses_again opening (running 16_000_000) (running 20_000_000) true 16_000_000 pressed_task
      pressed_command halfway

-- The bypass is armed behind a broken light barrier, and the gate opens; then it is stopped.
abbrev bypasses : List Event
bypasses =
    wake step_called
    ∷ call (call_barrier1_set true)
    ∷ call (call_set_barrier_bypass true)
    ∷ call call_open
    ∷ wake command
    ∷ pass 1_000_000
    ∷ []

abbrev halts : List Event
halts = pass 1_000_000 ∷ call call_stop ∷ []

abbrev moving : World
moving = run bypasses start

abbrev halted : World
halted = run halts moving

relay_on : is_high open_pin (leaf side_a moving.gate).writes ≡ true
unfolding run boot apply_call Gate.new Controls.new resolve_impulse blocked Controls.set_direction
    Motor.run_time Motor.new Motor.initial_delay Motor.ready_at command_for Motor.stop Motor.start
relay_on = refl

bypass_on : halted.gate.controls.barrier_bypass ≡ true
unfolding run boot apply_call Gate.new Controls.new resolve_impulse blocked Controls.set_direction
    Motor.run_time Motor.new Motor.initial_delay Motor.ready_at command_for Motor.stop Motor.start
bypass_on = refl

stays : StaysDriving halts moving
unfolding run boot apply_call Gate.new Controls.new resolve_impulse blocked Controls.set_direction
    Motor.run_time Motor.new Motor.initial_delay Motor.ready_at command_for Motor.stop Motor.start
stays = (refl, (refl, tt))

stopped : is_driving (resume command halted.now halted.gate).task ≡ false
unfolding run boot apply_call Gate.new Controls.new resolve_impulse blocked Controls.set_direction
    Motor.run_time Motor.new Motor.initial_delay Motor.ready_at command_for Motor.stop Motor.start
stopped = refl

bypass_used_up_example : (resume command halted.now halted.gate).controls.barrier_bypass ≡ false
bypass_used_up_example =
    bypass_used_up 0 Controls.new closed_a closed_b false (omega arith) (omega arith) bypasses
      side_a open_pin halts command relay_on stays stopped

-- Opened for two seconds, then closing again.
abbrev closes : List Event
closes =
    wake step_called
    ∷ call call_open
    ∷ wake command
    ∷ pass 2_000_000
    ∷ call call_close
    ∷ wake command
    ∷ wake step_called
    ∷ []

closing_task :
    (run closes start).gate.task ≡ driving closing (waiting 5_000_000) done false 5_000_000
unfolding run boot apply_call Gate.new Controls.new resolve_impulse blocked Controls.set_direction
    Motor.run_time Motor.new Motor.initial_delay Motor.ready_at command_for Motor.stop Motor.start
closing_task = refl

clear : (run closes start).gate.controls.barrier1_active ≡ false
unfolding run boot apply_call Gate.new Controls.new resolve_impulse blocked Controls.set_direction
    Motor.run_time Motor.new Motor.initial_delay Motor.ready_at command_for Motor.stop Motor.start
clear = refl

wind_trigger_reverses_example :
    (is_driving (run trips (run closes start)).gate.task ≡ false)
    × Released (run trips (run closes start)).gate
    × ((run (steps_after 7) (run trips (run closes start))).gate.controls.last_direction
        ≡ dir_opening)
wind_trigger_reverses_example =
    wind_trigger_reverses 0 Controls.new closed_a closed_b false (omega arith) (omega arith) closes
      (waiting 5_000_000) done false 5_000_000 7 closing_task clear
