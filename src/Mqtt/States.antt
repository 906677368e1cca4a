-- ===== src/Mqtt/States.antt =====
-- app-core/src/mqtt.rs: the state messages, read by a broker that retains them.
use gate_link.Prelude.{
  ◌≡◌, refl, ap, ◌∙◌, Bool, true, false, if◌then◌else◌, Option, none, some, List, [], ◌∷◌, ◌++◌,
  String,
}
use mathlib.Core.Option
use text.Mathlib.Text.{◌==◌ as str_eq}
use gate_link.Controls.{
  Controls, CoverState, is_open, is_opening, is_closed, is_closing, cover_state,
}
use gate_link.Mqtt.{
  state_messages, cover_state_topic, wind_state_topic, barrier_bypass_state_topic, cover_payload,
  on_off, open_state, opening_state, closed_state, on_payload,
}

-- The last payload retained under a topic.
pub retained : String → List (String × String) → Option String
retained topic [] = none
retained topic ((t, p) ∷ ms) = elim (retained topic ms) [
  | some q ↦ some q
  | none ↦ if str_eq topic t then some p else none
]

-- A message retained later replaces the earlier ones.
retained-append :
    (topic : String) (old ms : List (String × String)) (p : String)
    → retained topic ms ≡ some p
    → retained topic (old ++ ms) ≡ some p
unfolding retained
retained-append topic [] ms p h = h
retained-append topic ((t, q) ∷ old) ms p h = rw (retained-append topic old ms p h) refl

abbrev pub read_cover : String → CoverState
read_cover s =
    if str_eq s open_state
    then is_open
    else if str_eq s opening_state
    then is_opening
    else if str_eq s closed_state
    then is_closed
    else is_closing

abbrev pub read_switch : String → Bool
read_switch s = str_eq s on_payload

read_cover_payload : (s : CoverState) → read_cover (cover_payload s) ≡ s
unfolding cover_payload
read_cover_payload is_open = refl
read_cover_payload is_opening = refl
read_cover_payload is_closed = refl
read_cover_payload is_closing = refl

read_on_off : (b : Bool) → read_switch (on_off b) ≡ b
unfolding on_off
read_on_off true = refl
read_on_off false = refl

-- A broker that retains the state messages on top of any older ones shows the cover's state, the
-- wind lock and the bypass: the last payload under each of the three topics reads as the value in
-- `Controls`.
pub read-state_messages :
    (old : List (String × String)) (c : Controls)
    → (Option.map read_cover (retained cover_state_topic (old ++ state_messages c))
        ≡ some (cover_state c))
      × (Option.map read_switch (retained wind_state_topic (old ++ state_messages c))
          ≡ some c.wind_locked)
      × (Option.map read_switch (retained barrier_bypass_state_topic (old ++ state_messages c))
          ≡ some c.barrier_bypass)
unfolding retained state_messages
read-state_messages old c =
    let ms = state_messages c in
    (
      ap (Option.map read_cover) (retained-append cover_state_topic old ms _ refl)
          ∙ ap some (read_cover_payload (cover_state c)),
      ap (Option.map read_switch) (retained-append wind_state_topic old ms _ refl)
          ∙ ap some (read_on_off c.wind_locked),
      ap (Option.map read_switch) (retained-append barrier_bypass_state_topic old ms _ refl)
          ∙ ap some (read_on_off c.barrier_bypass),
    )
