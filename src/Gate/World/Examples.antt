-- ===== src/Gate/World/Examples.antt =====
-- A gate with two leaves, and the theorems about it at its runs.
use gate_link.Prelude.{List, [], ◌∷◌, ◌≡◌, refl, true, false, none, arith}
use gate_link.Time.{Ticks, micros}
use gate_link.Motor.{LeafTiming, Motor, opening}
use gate_link.Motor
use gate_link.Controls.{call_close, call_impulse, Controls, blocked, command_for}
use gate_link.Controls
use gate_link.Gate.{Gate, driving, waiting, running, execute, drive}
use gate_link.Gate
use gate_link.Gate.Progress.{IsFit}
use gate_link.Gate.World.{World, Event, pass, call, wake, step_called, timer, resume, run}
use gate_link.Gate.World.Locked.{IsLocked, run-IsLocked}
use gate_link.Gate.World.Polls.{is_ready}
use gate_link.Gate.World.Rounds.{Arrived}
use gate_link.Gate.World.Completion.{undisturbed, undisturbed_command_completes}
use gate_link.Gate.World.Allowed.{poll_leaves_unblocked}

instance abbrev clock : Ticks
clock = micros

abbrev timing : LeafTiming
timing = record {
  open_initial_delay = 3_000_000;
  open_duration = 15_000_000;
  close_initial_delay = 0;
  close_duration = 15_000_000;
}

abbrev leaf : Motor
leaf = Motor.new timing 1_000_000 1_000_000 0 0

abbrev closed : Gate
closed = Gate.new Controls.new leaf leaf false

leaf-IsFit : IsFit leaf
unfolding Motor.new
leaf-IsFit = record {
  in_range = omega arith;
  timed = record { open_fits = omega arith; close_fits = omega arith; overruns = omega arith };
}

undisturbed_command_completes_example :
    Arrived opening
      (undisturbed 4 (record { now = 7; gate = execute (command_for opening) 7 closed })).gate
unfolding Gate.new Controls.new Motor.new blocked
undisturbed_command_completes_example =
    undisturbed_command_completes opening 7 closed refl refl leaf-IsFit leaf-IsFit refl

abbrev opens : Gate
opens = execute (command_for opening) 7 closed

ready : is_ready timer 3_000_007 opens ≡ true
unfolding execute Gate.new Controls.new Motor.new blocked Controls.resolve_impulse command_for
    Controls.set_direction Motor.run_time Motor.initial_delay Motor.ready_at
ready = refl

moves :
    (resume timer 3_000_007 opens).task
    ≡ driving opening (running 19_000_007) (running 19_000_007) true 19_000_007
unfolding execute Gate.new Controls.new Motor.new blocked resume Controls.resolve_impulse
    command_for Controls.set_direction Motor.run_time Motor.initial_delay Motor.ready_at
moves = refl

poll_leaves_unblocked_example : blocked (resume timer 3_000_007 opens).controls opening ≡ none
poll_leaves_unblocked_example =
    poll_leaves_unblocked timer 3_000_007 opens opening (running 19_000_007) (running 19_000_007)
      true 19_000_007 ready moves

abbrev stormbound : World
stormbound = record { now = 7; gate = Gate.new Controls.new leaf leaf true }

abbrev attempts : List Event
attempts = wake step_called ∷ call call_close ∷ pass 3_000_000 ∷ wake timer ∷ call call_impulse ∷ []

stormbound-IsLocked : IsLocked stormbound.gate
unfolding Gate.new
stormbound-IsLocked = (refl, refl)

run-IsLocked_example : IsLocked (run attempts stormbound).gate
run-IsLocked_example =
    run-IsLocked attempts stormbound (refl, (refl, (refl, (refl, (refl, tt))))) stormbound-IsLocked
