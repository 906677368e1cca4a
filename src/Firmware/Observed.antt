-- ===== src/Firmware/Observed.antt =====
-- src/bin/main.rs: a boot as it is seen from outside, by what its effects do to each part.
use gate_link.Prelude.{ℕ, ◌+◌, Bool, true, false, if◌then◌else◌, Option, none, some, List, [], ◌∷◌}
use gate_link.DeviceConfig.{AppConfig}
use gate_link.Levels.{Barrier, light_barrier1, light_barrier2}
use gate_link.Physical.{MotorSettings}
use gate_link.Physical.Inputs.{
  EdgeInput, push_button, radio_button, wind_sensor, wind_reset, barrier_bypass_button,
}
use gate_link.Storage.{GateState}
use gate_link.Firmware.{
  Output, leaf_a_open, leaf_a_close, leaf_b_open, leaf_b_close, warning_light, SpawnedTask,
  run_gate, run_edge, run_level, run_warning_light, run_mqtt_client, WifiConfig, Effect, driven_low,
  spawned, wifi_started, wifi_configured,
}

-- Up to the start of the Wi-Fi, and from it on.
abbrev pub before_network : List Effect → List Effect
before_network [] = []
before_network (wifi_started ∷ es) = []
before_network (e ∷ es) = e ∷ before_network es

abbrev pub from_network : List Effect → List Effect
from_network [] = []
from_network (wifi_started ∷ es) = wifi_started ∷ es
from_network (_ ∷ es) = from_network es

abbrev is_output : Output → Output → Bool
is_output leaf_a_open leaf_a_open = true
is_output leaf_a_close leaf_a_close = true
is_output leaf_b_open leaf_b_open = true
is_output leaf_b_close leaf_b_close = true
is_output warning_light warning_light = true
is_output _ _ = false

-- The output is driven low, and nothing but other outputs comes before that.
abbrev pub driven_first : Output → List Effect → Bool
driven_first o (driven_low p ∷ es) = if is_output o p then true else driven_first o es
driven_first o _ = false

-- What each gate task and each MQTT client is spawned with.
abbrev pub gates : List Effect → List (MotorSettings × MotorSettings × Bool)
gates [] = []
gates (spawned (run_gate a b locked) ∷ es) = (a, b, locked) ∷ gates es
gates (_ ∷ es) = gates es

abbrev pub mqtt_clients : List Effect → List AppConfig
mqtt_clients [] = []
mqtt_clients (spawned (run_mqtt_client cfg) ∷ es) = cfg ∷ mqtt_clients es
mqtt_clients (_ ∷ es) = mqtt_clients es

-- What the radio is configured with.
abbrev pub wifi_configs : List Effect → List WifiConfig
wifi_configs [] = []
wifi_configs (wifi_configured c ∷ es) = c ∷ wifi_configs es
wifi_configs (_ ∷ es) = wifi_configs es

abbrev pub is_edge_task : EdgeInput → SpawnedTask → Bool
is_edge_task push_button (run_edge push_button) = true
is_edge_task radio_button (run_edge radio_button) = true
is_edge_task wind_sensor (run_edge wind_sensor) = true
is_edge_task wind_reset (run_edge wind_reset) = true
is_edge_task barrier_bypass_button (run_edge barrier_bypass_button) = true
is_edge_task _ _ = false

abbrev pub is_level_task : Barrier → SpawnedTask → Bool
is_level_task light_barrier1 (run_level light_barrier1) = true
is_level_task light_barrier2 (run_level light_barrier2) = true
is_level_task _ _ = false

abbrev pub is_light_task : SpawnedTask → Bool
is_light_task run_warning_light = true
is_light_task _ = false

-- How often a task of a kind is spawned.
abbrev pub times : (SpawnedTask → Bool) → List Effect → ℕ
times p [] = 0
times p (spawned t ∷ es) = if p t then times p es + 1 else times p es
times p (_ ∷ es) = times p es

-- A value of the stored gate state, or, if none is stored, the given one.
abbrev pub stored : {A : Type 0} → Option GateState → A → (GateState → A) → A
stored none value field = value
stored (some s) value field = field s
