-- ===== src/Messages.antt =====
-- src/physical/gate.rs (`execute`, `publish_state`), src/app/mqtt_handler.rs and src/app/discovery.rs:
-- what the device does with the messages of the broker, and what it queues for it.
pub mod Delivery
mod Examples
use gate_link.Prelude.{
  ℕ, Bool, true, Option, none, some, List, [], ◌∷◌, ◌++◌, map, String, bytes, Result, ok, err,
}
use mathlib.Core.Option
use gate_link.Controls.{Controls}
use gate_link.Mqtt.{
  Command, open_cover, close_cover, stop_cover, reset_lock, set_bypass, CommandError, parse, apply,
  state_messages,
}
use gate_link.Discovery.{Entity, configs}
use gate_link.Broker.{
  Channel, OutgoingMessage, IncomingMessage, at_least_once, outgoing_depth, publish_all,
}

-- The shared state, and the queue for the broker.
pub record Desk (Q : Type 0) : Type 0 where
  pub controls : Controls
  pub queue : Q

abbrev pub retained_message : String × List ℕ → OutgoingMessage
retained_message (topic, payload) = record {
  topic = topic;
  payload = payload;
  qos = at_least_once;
  retain = true;
}

abbrev pub as_bytes : String × String → String × List ℕ
as_bytes (topic, payload) = (topic, bytes payload)

abbrev pub state_publications : Controls → List OutgoingMessage
state_publications c = map (λ m. retained_message (as_bytes m)) (state_messages c)

abbrev pub config_publications : (Entity → List ℕ) → String → List OutgoingMessage
config_publications json sw_version = map retained_message (configs json sw_version)

-- `none` is a publication that goes on for ever.
module _ {Q : Type 0} (channel : Channel outgoing_depth Q OutgoingMessage) where
  unfoldable pub publish_state : Desk Q → Option (Desk Q)
  publish_state d =
      Option.map (λ q. record d { queue = q })
        (publish_all channel (state_publications d.controls) d.queue)

  unfoldable pub execute : Command → Desk Q → Option (Desk Q)
  unfolding publish_state
  execute (set_bypass active) d =
      publish_state (record d { controls = apply (set_bypass active) d.controls })
  execute cmd d = some (record d { controls = apply cmd d.controls })

  -- The action of the bypass button.
  unfoldable pub arm_barrier_bypass : Desk Q → Option (Desk Q)
  unfolding execute
  arm_barrier_bypass d = execute (set_bypass true) d

  handle_parsed : Result CommandError Command → Desk Q → Option (Desk Q)
  unfolding execute
  handle_parsed (ok cmd) d = execute cmd d
  handle_parsed (err _) d = some d

  -- The body of the loop of the MQTT handler.
  unfoldable pub handle : IncomingMessage → Desk Q → Option (Desk Q)
  unfolding handle_parsed
  handle m d = handle_parsed (parse m.topic m.payload) d

  -- The body of the loop of the discovery task, behind `wait_connected`.
  unfoldable pub republish : (Entity → List ℕ) → String → Desk Q → Option (Desk Q)
  unfolding publish_state
  republish json sw_version d =
      elim (publish_all channel (config_publications json sw_version) d.queue) [
        | none ↦ none
        | some q ↦ publish_state (record d { queue = q })
      ]
