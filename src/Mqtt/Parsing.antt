-- ===== src/Mqtt/Parsing.antt =====
-- app-core/src/mqtt.rs: which messages are commands.
use mathlib.Core.Path.{subst}
use text.Mathlib.Text.{◌==◌ as str_eq}
use text.Mathlib.TextEquality.{eq_iff}
use gate_link.Prelude.{
  ℕ, ◌≡◌, ◌↔◌, refl, sym, Bool, true, false, ◌||◌, ◌==ᵇ◌, eq_bytes_iff, if◌then◌else◌, Option, none,
  some, List, [], ◌∷◌, String, bytes, from_utf8, ok, err, arith, inl, inr, Bool-cases, Option-cases,
}
use gate_link.Mqtt.{
  Command, open_cover, close_cover, stop_cover, reset_lock, set_bypass, unknown_topic, parse,
  cover_command, button_command, bypass_command, unwrap_or_empty, ok_or, cover_command_topic,
  button_command_topic, barrier_bypass_command_topic, open_payload, close_payload, stop_payload,
  reset_wind_lock_payload, on_payload, off_payload, command_topics,
}

pub contains : String → List String → Bool
contains t [] = false
contains t (s ∷ ss) = str_eq t s || contains t ss

abbrev pub topic_of : Command → String
topic_of open_cover = cover_command_topic
topic_of close_cover = cover_command_topic
topic_of stop_cover = cover_command_topic
topic_of reset_lock = button_command_topic
topic_of (set_bypass _) = barrier_bypass_command_topic

abbrev pub payload_of : Command → String
payload_of open_cover = open_payload
payload_of close_cover = close_payload
payload_of stop_cover = stop_payload
payload_of reset_lock = reset_wind_lock_payload
payload_of (set_bypass true) = on_payload
payload_of (set_bypass false) = off_payload

pub parse-message : (c : Command) → parse (topic_of c) (bytes (payload_of c)) ≡ ok c
unfolding parse from_utf8
parse-message open_cover = refl
parse-message close_cover = refl
parse-message stop_cover = refl
parse-message reset_lock = refl
parse-message (set_bypass true) = refl
parse-message (set_bypass false) = refl

-- One arm of a match on the text.
arm :
    (P : Command → List ℕ → Type 0) (text key : List ℕ) (found c : Command) (rest : Option Command)
    → P found key
    → (rest ≡ some c → P c text)
    → (if text ==ᵇ key then some found else rest) ≡ some c
    → P c text
arm P text key found c rest p q h = elim (Bool-cases (text ==ᵇ key)) [
  | inl e ↦
      let same : found ≡ c = ground arith in
      subst (λ k. P c k) (sym ((eq_bytes_iff text key).0 e)) (subst (λ x. P x key) same p)
  | inr n ↦ q (ground arith)
]

no_arm :
    (P : Command → List ℕ → Type 0) (c : Command) (text : List ℕ)
    → (let o : Option Command = none in o) ≡ some c
    → P c text
no_arm P c text e = cc

abbrev Names : String → Command → List ℕ → Type 0
Names topic c text = (topic ≡ topic_of c) × (text ≡ bytes (payload_of c))

cover_command-Names :
    (text : List ℕ) (c : Command) → cover_command text ≡ some c → Names cover_command_topic c text
unfolding cover_command
cover_command-Names text c =
    let P = Names cover_command_topic in
    arm P text _ open_cover c _ (refl, refl)
      (arm P text _ close_cover c _ (refl, refl)
        (arm P text _ stop_cover c _ (refl, refl) (no_arm P c text)))

button_command-Names :
    (text : List ℕ) (c : Command) → button_command text ≡ some c → Names button_command_topic c text
unfolding button_command
button_command-Names text c =
    let P = Names button_command_topic in arm P text _ reset_lock c _ (refl, refl) (no_arm P c text)

bypass_command-Names :
    (text : List ℕ) (c : Command)
    → bypass_command text ≡ some c
    → Names barrier_bypass_command_topic c text
unfolding bypass_command
bypass_command-Names text c =
    let P = Names barrier_bypass_command_topic in
    arm P text _ (set_bypass true) c _ (refl, refl)
      (arm P text _ (set_bypass false) c _ (refl, refl) (no_arm P c text))

payload_of-not_empty : (c : Command) → ([] ==ᵇ bytes (payload_of c)) ≡ false
payload_of-not_empty open_cover = refl
payload_of-not_empty close_cover = refl
payload_of-not_empty stop_cover = refl
payload_of-not_empty reset_lock = refl
payload_of-not_empty (set_bypass true) = refl
payload_of-not_empty (set_bypass false) = refl

-- A payload that does not decode is taken for the empty text, which no command has.
text_of :
    (p : List ℕ) (c : Command)
    → unwrap_or_empty (from_utf8 p) ≡ bytes (payload_of c)
    → p ≡ bytes (payload_of c)
unfolding unwrap_or_empty from_utf8
text_of p c e = ground (arith, payload_of-not_empty c, eq_bytes_iff [] (bytes (payload_of c)))

ok_or-ok : (o : Option Command) (c : Command) → ok_or o ≡ ok c → o ≡ some c
unfolding ok_or
ok_or-ok none c e = ground arith
ok_or-ok (some _) c e = ground arith

parse-Names :
    (t : String) (p : List ℕ) (c : Command)
    → parse t p ≡ ok c
    → Names t c (unwrap_or_empty (from_utf8 p))
unfolding parse
parse-Names t p c h =
    let text = unwrap_or_empty (from_utf8 p) in
    elim (Bool-cases (str_eq t cover_command_topic)) [
      | inl e ↦
          subst (λ x. Names x c text) (sym ((eq_iff t cover_command_topic).0 e))
            (cover_command-Names text c (ok_or-ok (cover_command text) c (ground arith)))
      | inr not_cover ↦ elim (Bool-cases (str_eq t button_command_topic)) [
        | inl e ↦
            subst (λ x. Names x c text) (sym ((eq_iff t button_command_topic).0 e))
              (button_command-Names text c (ok_or-ok (button_command text) c (ground arith)))
        | inr not_button ↦ elim (Bool-cases (str_eq t barrier_bypass_command_topic)) [
          | inl e ↦
              subst (λ x. Names x c text) (sym ((eq_iff t barrier_bypass_command_topic).0 e))
                (bypass_command-Names text c (ok_or-ok (bypass_command text) c (ground arith)))
          | inr not_bypass ↦ absurd (ground arith)
        ]
      ]
    ]

-- A message is accepted as a command exactly when it is that command's own topic and payload; each
-- of the six messages is understood, and no other topic, payload or spelling is, bytes that are no
-- text included.
pub parse-ok :
    (t : String) (p : List ℕ) (c : Command)
    → (parse t p ≡ ok c) ↔ ((t ≡ topic_of c) × (p ≡ bytes (payload_of c)))
parse-ok t p c = (
  λ h. let (topic, text) = parse-Names t p c h in (topic, text_of p c text),
  λ h.
      subst (λ x. parse x p ≡ ok c) (sym h.0)
        (subst (λ x. parse (topic_of c) x ≡ ok c) (sym h.1) (parse-message c)),
)

-- A message is refused for its topic exactly when that is none of the topics that the firmware
-- subscribes to, whatever its payload is.
pub parse-unknown_topic :
    (t : String) (p : List ℕ)
    → (parse t p ≡ err unknown_topic) ↔ (contains t command_topics ≡ false)
unfolding parse contains ok_or
parse-unknown_topic t p =
    let text = unwrap_or_empty (from_utf8 p) in
    ground (
      arith,
      Option-cases (cover_command text),
      Option-cases (button_command text),
      Option-cases (bypass_command text),
    )
