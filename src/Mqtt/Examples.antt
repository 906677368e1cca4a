-- ===== src/Mqtt/Examples.antt =====
-- Some messages, and the theorems about them.
use mathlib.Core.Option
use gate_link.Prelude.{◌≡◌, ◌↔◌, some, List, [], ◌∷◌, ◌++◌, String, bytes, ok}
use gate_link.Controls.{cover_state}
use gate_link.Controls
use gate_link.Mqtt.{
  open_cover, parse, state_messages, cover_command_topic, open_payload, open_state,
  cover_state_topic, wind_state_topic, barrier_bypass_state_topic,
}
use gate_link.Mqtt.Parsing.{topic_of, payload_of, parse-ok}
use gate_link.Mqtt.States.{read_cover, read_switch, retained, read-state_messages}

parse-ok_example : (parse cover_command_topic (bytes open_payload) ≡ ok open_cover) ↔ (
    (cover_command_topic ≡ topic_of open_cover)
    × (bytes open_payload ≡ bytes (payload_of open_cover)))
parse-ok_example = parse-ok cover_command_topic (bytes open_payload) open_cover

abbrev stale : List (String × String)
stale = (cover_state_topic, open_state) ∷ []

read-state_messages_example :
    (Option.map read_cover (retained cover_state_topic (stale ++ state_messages Controls.new))
      ≡ some (cover_state Controls.new))
    × (Option.map read_switch (retained wind_state_topic (stale ++ state_messages Controls.new))
        ≡ some (Controls.new.wind_locked))
    × (Option.map read_switch
          (retained barrier_bypass_state_topic (stale ++ state_messages Controls.new))
        ≡ some (Controls.new.barrier_bypass))
read-state_messages_example = read-state_messages stale Controls.new
