-- ===== src/Motor/Examples.antt =====
-- A leaf of the gate at work, and the theorems about it there.
use gate_link.Prelude.{◌≡◌, refl, some, arith}
use gate_link.Time.{Ticks, micros}
use gate_link.Motor.{LeafTiming, Motor, idle, running, opening, run_time, start, stop}
use gate_link.Motor
use gate_link.Motor.Travel.{stop-run_time}

instance abbrev clock : Ticks
clock = micros

abbrev timing : LeafTiming
timing = record {
  open_initial_delay = 0;
  open_duration = 15_000_000;
  close_initial_delay = 3_000_000;
  close_duration = 15_000_000;
}

abbrev halfway : Motor
halfway = Motor.new timing 1_000_000 1_000_000 100 0

abbrev opens : Motor
opens = start 2_000_000 opening halfway

needs : run_time opens opening ≡ some 10_117_000
unfolding run_time Motor.new start
needs = refl

stop-run_time_example : (stop 12_117_000 opens).position ≡ 255
unfolding start Motor.new
stop-run_time_example =
    stop-run_time opens opening 2_000_000 12_117_000 (omega arith)
      (record { open_fits = omega arith; close_fits = omega arith; overruns = omega arith }) needs
      refl (omega arith) (omega arith)
