-- ===== src/Physical/Inputs/Examples.antt =====
-- A wind pulse with a bounce in front.
use gate_link.Prelude.{◌≡◌, true, false, Bool, List, [], ◌∷◌, arith}
use gate_link.Controls.{open_gate}
use gate_link.Controls
use gate_link.Physical.Inputs.{wind_sensor, edge_task}
use gate_link.Physical.Inputs.Pulses.{wind_pulse_latches}

abbrev gust : List Bool
gust = true ∷ false ∷ true ∷ true ∷ true ∷ true ∷ true ∷ []

latched : (edge_task wind_sensor gust Controls.new).wind_locked ≡ true
latched = (wind_pulse_latches gust Controls.new (omega arith)).0
