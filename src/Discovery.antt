-- ===== src/Discovery.antt =====
-- app-core/src/discovery.rs: the configs that tell Home Assistant how to command and read the gate.
-- `json` stands for `serde_json::to_vec` on the four kinds of config.
pub mod Agreement
mod Examples
use gate_link.Prelude.{ℕ, Option, none, some, List, [], ◌∷◌, String}
use gate_link.Mqtt.{
  node_id, cover_config_topic, cover_command_topic, cover_state_topic, wind_config_topic,
  wind_state_topic, spare_input_config_topic, barrier_bypass_config_topic,
  barrier_bypass_command_topic, barrier_bypass_state_topic, button_config_topic,
  button_command_topic, reset_wind_lock_payload, open_state, closed_state, opening_state,
  closing_state, open_payload, close_payload, stop_payload, on_payload, off_payload,
}

pub record Device : Type 0 where
  pub identifiers : List String
  pub name : String
  pub manufacturer : String
  pub model : String
  pub sw_version : String

pub record CoverConfig : Type 0 where
  pub name : String
  pub unique_id : String
  pub device_class : String
  pub command_topic : String
  pub state_topic : String
  pub payload_open : String
  pub payload_close : String
  pub payload_stop : String
  pub state_open : String
  pub state_opening : String
  pub state_closed : String
  pub state_closing : String
  pub device : Device

pub record BinarySensorConfig : Type 0 where
  pub name : String
  pub unique_id : String
  pub device_class : Option String
  pub state_topic : String
  pub payload_on : String
  pub payload_off : String
  pub device : Device

pub record ButtonConfig : Type 0 where
  pub name : String
  pub unique_id : String
  pub command_topic : String
  pub payload_press : String
  pub device : Device

pub record SwitchConfig : Type 0 where
  pub name : String
  pub unique_id : String
  pub command_topic : String
  pub state_topic : String
  pub payload_on : String
  pub payload_off : String
  pub device : Device

-- What `json` is called with.
pub data Entity : Type 0 where
  cover_entity : CoverConfig → Entity
  sensor_entity : BinarySensorConfig → Entity
  switch_entity : SwitchConfig → Entity
  button_entity : ButtonConfig → Entity

abbrev pub device : String → Device
device sw_version = record {
  identifiers = node_id ∷ [];
  name = "Gate";
  manufacturer = "mqtt_gate";
  model = "ESP32-S3 Gate Controller";
  sw_version = sw_version;
}

abbrev pub cover : String → CoverConfig
cover sw_version = record {
  name = "gate";
  unique_id = "mqtt_gate_cover";
  device_class = "gate";
  command_topic = cover_command_topic;
  state_topic = cover_state_topic;
  payload_open = open_payload;
  payload_close = close_payload;
  payload_stop = stop_payload;
  state_open = open_state;
  state_opening = opening_state;
  state_closed = closed_state;
  state_closing = closing_state;
  device = device sw_version;
}

abbrev pub wind : String → BinarySensorConfig
wind sw_version = record {
  name = "Wind Monitor Input";
  unique_id = "mqtt_gate_wind";
  device_class = some "safety";
  state_topic = wind_state_topic;
  payload_on = on_payload;
  payload_off = off_payload;
  device = device sw_version;
}

abbrev pub barrier_bypass : String → SwitchConfig
barrier_bypass sw_version = record {
  name = "Light Barrier Bypass";
  unique_id = "mqtt_gate_barrier_bypass";
  command_topic = barrier_bypass_command_topic;
  state_topic = barrier_bypass_state_topic;
  payload_on = on_payload;
  payload_off = off_payload;
  device = device sw_version;
}

abbrev pub reset_anemometer : String → ButtonConfig
reset_anemometer sw_version = record {
  name = "Reset Windmonitor";
  unique_id = "mqtt_gate_reset_anemometer";
  command_topic = button_command_topic;
  payload_press = reset_wind_lock_payload;
  device = device sw_version;
}

-- An empty retained config removes the old spare-input entity.
unfoldable pub configs : (Entity → List ℕ) → String → List (String × List ℕ)
configs json sw_version =
    (cover_config_topic, json (cover_entity (cover sw_version)))
    ∷ (wind_config_topic, json (sensor_entity (wind sw_version)))
    ∷ (spare_input_config_topic, [])
    ∷ (barrier_bypass_config_topic, json (switch_entity (barrier_bypass sw_version)))
    ∷ (button_config_topic, json (button_entity (reset_anemometer sw_version)))
    ∷ []
