-- ===== src/Discovery/Examples.antt =====
-- A serialization that numbers the four configs, and the theorems about them.
use gate_link.Prelude.{ℕ, refl, Option, none, some, List, [], ◌∷◌, String, zero, suc}
use gate_link.Mqtt.{cover_config_topic}
use gate_link.Discovery.{
  Entity, cover_entity, sensor_entity, switch_entity, button_entity, cover, wind, barrier_bypass,
  reset_anemometer, configs,
}
use gate_link.Discovery.Agreement.{announced, Understood, configs-Understood}

abbrev version : String
version = "1.0.0"

abbrev number : Entity → List ℕ
number (cover_entity _) = 0 ∷ []
number (sensor_entity _) = 1 ∷ []
number (switch_entity _) = 2 ∷ []
number (button_entity _) = 3 ∷ []

abbrev numbered : ℕ → Entity
numbered zero = cover_entity (cover version)
numbered (suc zero) = sensor_entity (wind version)
numbered (suc (suc zero)) = switch_entity (barrier_bypass version)
numbered _ = button_entity (reset_anemometer version)

abbrev decode : List ℕ → Option Entity
decode [] = none
decode (n ∷ _) = some (numbered n)

configs-Understood_example : Understood (announced (cover_entity (cover version)))
unfolding configs
configs-Understood_example =
    configs-Understood number decode version (refl, (refl, (refl, (refl, tt)))) refl
      cover_config_topic (0 ∷ []) 0 (cover_entity (cover version)) refl refl
