-- ===== src/Discovery/Agreement.antt =====
-- app-core/src/discovery.rs against app-core/src/mqtt.rs: what the configs announce, and what is
-- parsed and sent.
use mathlib.Core.Option.{some-injective}
use mathlib.Core.Path.{subst}
use gate_link.Prelude.{
  ℕ, ◌≡◌, true, false, Option, none, some, List, [], ◌∷◌, String, bytes, ok, sym, ◌∙◌, All, ap,
  get_elem?, zero, suc, arith, if◌then◌else◌,
}
use gate_link.Controls.{
  Controls, CoverState, is_open, is_opening, is_closed, is_closing, cover_state,
}
use gate_link.Mqtt.{
  Command, open_cover, close_cover, stop_cover, reset_lock, set_bypass, parse, state_messages,
  on_off, cover_payload,
}
use gate_link.Mqtt.Parsing.{parse-message}
use gate_link.Discovery.{
  Entity, cover_entity, sensor_entity, switch_entity, button_entity, CoverConfig, cover, wind,
  barrier_bypass, reset_anemometer, configs,
}

-- The messages that Home Assistant sends for an entity, and the command that each stands for.
abbrev pub announced : Entity → List ((String × List ℕ) × Command)
announced (cover_entity e) =
    ((e.command_topic, bytes e.payload_open), open_cover)
    ∷ ((e.command_topic, bytes e.payload_close), close_cover)
    ∷ ((e.command_topic, bytes e.payload_stop), stop_cover)
    ∷ []
announced (sensor_entity e) = []
announced (switch_entity e) =
    ((e.command_topic, bytes e.payload_on), set_bypass true)
    ∷ ((e.command_topic, bytes e.payload_off), set_bypass false)
    ∷ []
announced (button_entity e) = ((e.command_topic, bytes e.payload_press), reset_lock) ∷ []

-- What the configs promise of the state messages: their topics and payloads, in their order.
abbrev pub shown_cover : CoverConfig → CoverState → String
shown_cover e is_open = e.state_open
shown_cover e is_opening = e.state_opening
shown_cover e is_closed = e.state_closed
shown_cover e is_closing = e.state_closing

abbrev pub promised : String → Controls → List (String × String)
promised sw c =
    ((cover sw).state_topic, shown_cover (cover sw) (cover_state c))
    ∷ ((wind sw).state_topic, if c.wind_locked then (wind sw).payload_on else (wind sw).payload_off)
    ∷ (
      (barrier_bypass sw).state_topic,
      if c.barrier_bypass then (barrier_bypass sw).payload_on else (barrier_bypass sw).payload_off,
    )
    ∷ []

abbrev pub entities : String → List Entity
entities sw =
    cover_entity (cover sw)
    ∷ sensor_entity (wind sw)
    ∷ switch_entity (barrier_bypass sw)
    ∷ button_entity (reset_anemometer sw)
    ∷ []

-- Every announced message is parsed as its command.
abbrev pub Understood : List ((String × List ℕ) × Command) → Type 0
Understood = All (λ a. parse a.0.0 a.0.1 ≡ ok a.1)

cover-Understood : (sw : String) → Understood (announced (cover_entity (cover sw)))
cover-Understood sw =
    (parse-message open_cover, (parse-message close_cover, (parse-message stop_cover, tt)))

switch-Understood : (sw : String) → Understood (announced (switch_entity (barrier_bypass sw)))
switch-Understood sw = (parse-message (set_bypass true), (parse-message (set_bypass false), tt))

button-Understood : (sw : String) → Understood (announced (button_entity (reset_anemometer sw)))
button-Understood sw = (parse-message reset_lock, tt)

-- Home Assistant reads the configs back with `decode`, which inverts `json` on them and takes none
-- from an empty payload.
module _ (json : Entity → List ℕ) (decode : List ℕ → Option Entity) (sw : String)
    (decode_json : All (λ e. decode (json e) ≡ some e) (entities sw))
    (decode_empty : decode [] ≡ none) where
  read_entity :
      (sent : Entity)
      → decode (json sent) ≡ some sent
      → Understood (announced sent)
      → (e : Entity) {topic t : String} {payload : List ℕ}
      → ◌≡◌ {A = Option (String × List ℕ)} (some (t, json sent)) (some (topic, payload))
      → decode payload ≡ some e
      → Understood (announced e)
  read_entity sent inverse u e {topic} {t} {payload} m h =
      let same = some-injective _ _ m in
      let back : decode (json sent) ≡ some e = ap (λ x. decode x.1) same ∙ h in
      subst (λ x. Understood (announced x)) (some-injective _ _ (sym inverse ∙ back)) u

  -- Whatever entity a reader decodes from one of the discovery configs, each message that the entity
  -- announces, at its command topic with one of its payloads, is parsed by the firmware as the
  -- command that it stands for. Decoding inverts the serialization, and takes nothing from an empty
  -- payload.
  pub configs-Understood :
      (topic : String) (payload : List ℕ) (i : ℕ) (e : Entity)
      → get_elem? (configs json sw) i ≡ some (topic, payload)
      → decode payload ≡ some e
      → Understood (announced e)
  unfolding configs
  configs-Understood topic payload zero e m h =
      read_entity (cover_entity (cover sw)) decode_json.0 (cover-Understood sw) e m h
  configs-Understood topic payload (suc zero) e m h =
      read_entity (sensor_entity (wind sw)) decode_json.1.0 tt e m h
  configs-Understood topic payload (suc (suc zero)) e m h = absurd (ground (arith, decode_empty))
  configs-Understood topic payload (suc (suc (suc zero))) e m h =
      read_entity (switch_entity (barrier_bypass sw)) decode_json.1.1.0 (switch-Understood sw) e m h
  configs-Understood topic payload (suc (suc (suc (suc zero)))) e m h =
      read_entity (button_entity (reset_anemometer sw)) decode_json.1.1.1.0 (button-Understood sw) e
        m h
  configs-Understood topic payload (suc (suc (suc (suc (suc i))))) e m h = cc

-- The state messages are, at the topics and with the payloads that the discovery configs announce,
-- the cover's state, the wind lock and the bypass, in this order.
pub state_messages-promised : (sw : String) (c : Controls) → state_messages c ≡ promised sw c
unfolding state_messages on_off cover_payload
state_messages-promised sw c = ground arith
