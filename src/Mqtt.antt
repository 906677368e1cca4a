-- ===== src/Mqtt.antt =====
-- app-core/src/mqtt.rs: which message means which command, and the messages that show the state.
-- A topic is compared as a whole text; a payload is bytes that are decoded first.
pub mod Parsing
pub mod States
mod Examples
use text.Mathlib.Text.{◌==◌ as str_eq}
use gate_link.Prelude.{
  ℕ, Bool, true, false, ◌==ᵇ◌, if◌then◌else◌, Option, none, some, List, [], ◌∷◌, String, bytes,
  from_utf8, Result, ok, err,
}
use gate_link.Controls.{
  Controls, CoverState, is_open, is_opening, is_closed, is_closing, open_request, close_request,
  stop_request, reset_wind_lock, set_barrier_bypass, cover_state,
}

abbrev pub node_id : String
node_id = "mqtt_gate"

abbrev pub cover_config_topic : String
cover_config_topic = "homeassistant/cover/mqtt_gate/config"

abbrev pub cover_command_topic : String
cover_command_topic = "mqtt_gate/cover/set"

abbrev pub cover_state_topic : String
cover_state_topic = "mqtt_gate/cover/state"

abbrev pub wind_config_topic : String
wind_config_topic = "homeassistant/binary_sensor/mqtt_gate_wind/config"

abbrev pub wind_state_topic : String
wind_state_topic = "mqtt_gate/wind/state"

abbrev pub spare_input_config_topic : String
spare_input_config_topic = "homeassistant/binary_sensor/mqtt_gate_spare_input/config"

abbrev pub barrier_bypass_config_topic : String
barrier_bypass_config_topic = "homeassistant/switch/mqtt_gate_barrier_bypass/config"

abbrev pub barrier_bypass_command_topic : String
barrier_bypass_command_topic = "mqtt_gate/barrier_bypass/set"

abbrev pub barrier_bypass_state_topic : String
barrier_bypass_state_topic = "mqtt_gate/barrier_bypass/state"

abbrev pub button_config_topic : String
button_config_topic = "homeassistant/button/mqtt_gate_impulse/config"

abbrev pub button_command_topic : String
button_command_topic = "mqtt_gate/impulse/set"

abbrev pub reset_wind_lock_payload : String
reset_wind_lock_payload = "reset_anemometer"

abbrev pub open_state : String
open_state = "open"

abbrev pub closed_state : String
closed_state = "closed"

abbrev pub opening_state : String
opening_state = "opening"

abbrev pub closing_state : String
closing_state = "closing"

abbrev pub open_payload : String
open_payload = "OPEN"

abbrev pub close_payload : String
close_payload = "CLOSE"

abbrev pub stop_payload : String
stop_payload = "STOP"

abbrev pub on_payload : String
on_payload = "ON"

abbrev pub off_payload : String
off_payload = "OFF"

abbrev pub command_topics : List String
command_topics = cover_command_topic ∷ button_command_topic ∷ barrier_bypass_command_topic ∷ []

-- `Open`, `Close`, `Stop`, `ResetWindLock`, `SetBarrierBypass`
pub data Command : Type 0 where
  open_cover close_cover stop_cover reset_lock : Command
  set_bypass : Bool → Command

pub data CommandError : Type 0 where
  unknown_topic unknown_payload : CommandError

unwrap_or_empty : Option (List ℕ) → List ℕ
unwrap_or_empty (some text) = text
unwrap_or_empty none = []

cover_command : List ℕ → Option Command
cover_command text =
    if text ==ᵇ bytes open_payload
    then some open_cover
    else if text ==ᵇ bytes close_payload
    then some close_cover
    else if text ==ᵇ bytes stop_payload
    then some stop_cover
    else none

button_command : List ℕ → Option Command
button_command text = if text ==ᵇ bytes reset_wind_lock_payload then some reset_lock else none

bypass_command : List ℕ → Option Command
bypass_command text =
    if text ==ᵇ bytes on_payload
    then some (set_bypass true)
    else if text ==ᵇ bytes off_payload
    then some (set_bypass false)
    else none

ok_or : Option Command → Result CommandError Command
ok_or (some c) = ok c
ok_or none = err unknown_payload

unfoldable pub parse : String → List ℕ → Result CommandError Command
unfolding unwrap_or_empty cover_command button_command bypass_command ok_or
parse topic payload =
    let text = unwrap_or_empty (from_utf8 payload) in
    if str_eq topic cover_command_topic
    then ok_or (cover_command text)
    else if str_eq topic button_command_topic
    then ok_or (button_command text)
    else if str_eq topic barrier_bypass_command_topic
    then ok_or (bypass_command text)
    else err unknown_topic

unfoldable pub apply : Command → Controls → Controls
apply open_cover c = open_request c
apply close_cover c = close_request c
apply stop_cover c = stop_request c
apply reset_lock c = reset_wind_lock c
apply (set_bypass active) c = set_barrier_bypass active c

unfoldable pub on_off : Bool → String
on_off on = if on then on_payload else off_payload

unfoldable pub cover_payload : CoverState → String
cover_payload is_open = open_state
cover_payload is_opening = opening_state
cover_payload is_closed = closed_state
cover_payload is_closing = closing_state

unfoldable pub state_messages : Controls → List (String × String)
unfolding on_off cover_payload
state_messages c =
    (cover_state_topic, cover_payload (cover_state c))
    ∷ (wind_state_topic, on_off c.wind_locked)
    ∷ (barrier_bypass_state_topic, on_off c.barrier_bypass)
    ∷ []
