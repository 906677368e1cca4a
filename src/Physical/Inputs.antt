-- ===== src/Physical/Inputs.antt =====
-- src/physical/inputs.rs: `edge_task`, and the inputs that src/bin/main.rs spawns it for.
pub mod Pulses
mod Examples
use gate_link.Prelude.{ℕ, Bool, true, false, List, [], ◌∷◌}
use gate_link.Controls.{Controls, impulse, wind_trigger, reset_wind_lock, set_barrier_bypass}
use gate_link.Debounce.{Debouncer, sample}
use gate_link.Debounce

abbrev pub edge_stable_samples : ℕ
edge_stable_samples = 5

pub data EdgeInput : Type 0 where
  push_button radio_button wind_sensor wind_reset barrier_bypass_button : EdgeInput

-- What an input does to the controls. The bypass button also publishes the state (`arm_barrier_bypass`
-- of Messages).
unfoldable pub action : EdgeInput → Controls → Controls
action push_button = impulse
action radio_button = impulse
action wind_sensor = wind_trigger
action wind_reset = reset_wind_lock
action barrier_bypass_button = set_barrier_bypass true

unfoldable pub fire_if : EdgeInput → Bool → Controls → Controls
unfolding action
fire_if input true c = action input c
fire_if input false c = c

-- The loop over the samples of the pin. The other tasks do not run in between here.
unfoldable pub edge_run : EdgeInput → List Bool → Debouncer → Controls → Controls
unfolding fire_if
edge_run input [] d c = c
edge_run input (pressed ∷ rest) d c =
    let (d', fired) = sample pressed d in edge_run input rest d' (fire_if input fired c)

unfoldable pub edge_task : EdgeInput → List Bool → Controls → Controls
unfolding edge_run
edge_task input samples c = edge_run input samples (Debounce.new edge_stable_samples) c
