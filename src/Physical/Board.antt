-- ===== src/Physical/Board.antt =====
-- src/physical/inputs.rs and src/bin/main.rs: the tasks of the inputs next to the gate task and the
-- rest, on the controls that they share. A task runs from one `await` to the next, in any order.
pub mod Traces
pub mod Gusts
pub mod Storms
mod Examples
use gate_link.Prelude.{ℕ, Bool, true, false, ◌==◌, if◌then◌else◌, List, [], ◌∷◌, ◌++◌}
use gate_link.Time.{Ticks}
use gate_link.Controls.{
  Controls, Call, call_impulse, call_wind_trigger, call_reset_wind_lock, call_barrier1_set,
  call_barrier2_set, call_set_barrier_bypass,
}
use gate_link.Debounce.{Debouncer, sample}
use gate_link.Debounce
use gate_link.Levels.{
  Barrier, light_barrier1, light_barrier2, Level, differ, begin_level, level_round,
}
use gate_link.Gate.World.{World, Event, call, happen}
use gate_link.Physical.Inputs.{
  EdgeInput, push_button, radio_button, wind_sensor, wind_reset, barrier_bypass_button, fire_if,
  edge_stable_samples,
}

-- The locals of the tasks: the debouncer of each edge input, and what each barrier last read.
pub record Board : Type 0 where
  pub world : World
  pub edges : EdgeInput → Debouncer
  pub barriers : Barrier → Bool

-- The task of an edge input samples its pin, low or not; the task of a barrier starts, or reads its
-- pin; or something else happens.
pub data BoardEvent : Type 0 where
  edge_sampled : EdgeInput → Bool → BoardEvent
  level_begun : Barrier → Bool → BoardEvent
  level_read : Barrier → Bool → BoardEvent
  other : Event → BoardEvent

input_number : EdgeInput → ℕ
input_number push_button = 0
input_number radio_button = 1
input_number wind_sensor = 2
input_number wind_reset = 3
input_number barrier_bypass_button = 4

unfoldable pub same_input : EdgeInput → EdgeInput → Bool
unfolding input_number
same_input i j = input_number i == input_number j

same_barrier : Barrier → Barrier → Bool
same_barrier light_barrier1 light_barrier1 = true
same_barrier light_barrier2 light_barrier2 = true
same_barrier _ _ = false

unfoldable pub put_edge : EdgeInput → Debouncer → (EdgeInput → Debouncer) → EdgeInput → Debouncer
put_edge i d edges j = if same_input i j then d else edges j

put_barrier : Barrier → Bool → (Barrier → Bool) → Barrier → Bool
unfolding same_barrier
put_barrier r active barriers q = if same_barrier r q then active else barriers q

-- A task changes the controls.
unfoldable pub with_controls : Controls → World → World
with_controls c w = let g = w.gate in record w { gate = record g { controls = c } }

level_done : Barrier → Level → Board → Board
unfolding put_barrier with_controls
level_done r l b = record b {
  barriers = put_barrier r l.last_active b.barriers;
  world = with_controls l.controls b.world;
}

-- Every debouncer is new.
unfoldable pub begin_board : World → (Barrier → Bool) → Board
begin_board w barriers = record {
  world = w;
  edges = λ i. Debounce.new edge_stable_samples;
  barriers = barriers;
}

module _ ⦃ticks : Ticks⦄ where
  unfoldable pub board_step : BoardEvent → Board → Board
  unfolding put_edge with_controls fire_if level_done
  board_step (edge_sampled i pressed) b =
      let (d, fired) = sample pressed (b.edges i) in
      record b {
        edges = put_edge i d b.edges;
        world = with_controls (fire_if i fired b.world.gate.controls) b.world;
      }
  board_step (level_begun r active) b = level_done r (begin_level r active b.world.gate.controls) b
  board_step (level_read r active) b =
      let l : Level = record { last_active = b.barriers r; controls = b.world.gate.controls } in
      level_done r (level_round r active l) b
  board_step (other e) b = record b { world = happen e b.world }

  unfoldable pub run_board : List BoardEvent → Board → Board
  unfolding board_step
  run_board [] b = b
  run_board (e ∷ es) b = run_board es (board_step e b)
