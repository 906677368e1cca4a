-- ===== src/Physical/Board/Examples.antt =====
-- A gust while the gate closes and someone presses the button, and the theorems about it.
use gate_link.Prelude.{◌≤◌, ◌<◌, ◌≡◌, Bool, true, false, List, [], ◌∷◌, All, arith}
use gate_link.Time.{Ticks, micros}
use gate_link.Controls.{call_close}
use gate_link.Controls
use gate_link.Debounce.Presses.{longest}
use gate_link.Levels.{Barrier, light_barrier1, light_barrier2}
use gate_link.Gate.Progress.Lateness.{Short}
use gate_link.Gate.World.{World, pass, call, wake, step_called, command, happen, run}
use gate_link.Physical.{boot}
use gate_link.Physical.Inputs.{push_button, wind_sensor, wind_reset}
use gate_link.Physical.Bounds.{settings_a, settings_b}
use gate_link.Physical.Storm.{NotDropped}
use gate_link.Physical.Board.{
  same_input, Board, BoardEvent, edge_sampled, level_begun, level_read, other, begin_board,
  board_step, run_board,
}
use gate_link.Physical.Board.Traces.{trace, run_board-trace}
use gate_link.Physical.Board.Gusts.{samples}
use gate_link.Physical.Board.Storms.{is_reset_beside, after_gust, gust_kept}

instance abbrev clock : Ticks
clock = micros

-- The reset input bounces.
abbrev gust : List BoardEvent
gust =
    level_begun light_barrier1 false
    ∷ level_begun light_barrier2 true
    ∷ other (wake step_called)
    ∷ other (call call_close)
    ∷ other (wake command)
    ∷ edge_sampled wind_sensor false
    ∷ edge_sampled wind_sensor true
    ∷ edge_sampled push_button true
    ∷ edge_sampled wind_sensor true
    ∷ other (pass 10_000)
    ∷ edge_sampled wind_reset true
    ∷ edge_sampled wind_sensor true
    ∷ level_read light_barrier2 false
    ∷ edge_sampled wind_sensor true
    ∷ edge_sampled wind_sensor true
    ∷ other (wake command)
    ∷ []

abbrev dark : Barrier → Bool
dark r = false

abbrev stormy : World
stormy = after_gust 0 Controls.new 255 255 false (omega arith) (omega arith) dark gust

five : 5 ≤ longest 0 (samples wind_sensor gust)
unfolding samples same_input
five = omega arith

calm : longest 0 (samples wind_reset gust) < 5
unfolding samples same_input
calm = omega arith

nothing_beside : All (λ e. is_reset_beside e ≡ false) gust
nothing_beside = ground arith

early : Short stormy.now
unfolding run_board board_step begin_board boot happen
early = omega arith

gust_kept_example :
    (stormy.gate.controls.wind_locked ≡ true) × NotDropped stormy.gate.task stormy.gate
gust_kept_example =
    gust_kept 0 Controls.new 255 255 false (omega arith) (omega arith) dark gust five calm
      nothing_beside early

abbrev board : Board
board = begin_board (boot 0 Controls.new (settings_a 0) (settings_b 0) false) dark

run_board-trace_example : (run_board gust board).world ≡ run (trace gust board) board.world
run_board-trace_example = run_board-trace gust board
