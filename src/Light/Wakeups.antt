-- ===== src/Light/Wakeups.antt =====
-- gate-core/src/warning_light.rs: when the task of the light is woken.
use gate_link.Prelude.{
  ℕ, ◌+◌, ◌≡◌, Bool, true, false, leb, if-intro, inl, inr, Bool-cases, List, [], ◌∷◌, arith,
}
use mathlib.Core.Path.{subst}
use gate_link.Time.{Ticks}
use gate_link.Controls.{Controls, warning_light_active}
use gate_link.Controls.Lighting.{Announced, apply_call-Announced}
use gate_link.Gate.World.{World, Event, pass, call, wake, happen}
use gate_link.Gate.World.Announcing.{resume-Announces}
use gate_link.Light.{
  Rest, starting, blinking, dark, Light, new, check, Lamp, poll_at, poll, LampEvent, world_event,
  light_poll, lamp_run,
}

abbrev is_dark : Rest → Bool
is_dark dark = true
is_dark _ = false

-- A light that waits for its signal has it if it should blink, and its pin is low.
abbrev Attentive : Rest → Controls → Light → Type 0
Attentive dark c l = Announced c × (l.lit ≡ false)
Attentive _ c l = Unit

abbrev IsAttentive : Lamp → Type 0
IsAttentive s = Attentive s.light.rest s.world.gate.controls s.light

check-Attentive :
    (half_period now : ℕ) (c : Controls) (l : Light)
    → Attentive (check half_period now c l).rest c (check half_period now c l)
unfolding check
check-Attentive half_period now c l = elim (Bool-cases (warning_light_active c)) [
  | inl on ↦ rw on tt
  | inr off ↦ rw off (ground arith)
]

poll_at-IsAttentive :
    (r : Rest) (half_period : ℕ) (s : Lamp) → IsAttentive s → IsAttentive (poll_at r half_period s)
unfolding poll_at
poll_at-IsAttentive starting half_period s h =
    check-Attentive half_period s.world.now s.world.gate.controls s.light
poll_at-IsAttentive (blinking at) half_period s h =
    if-intro IsAttentive (leb at s.world.now)
      (λ _. check-Attentive half_period s.world.now s.world.gate.controls s.light) (λ _. h)
poll_at-IsAttentive dark half_period s h =
    if-intro IsAttentive s.world.gate.controls.light_changed
      (λ _. check-Attentive half_period _ _ s.light) (λ _. h)

Attentive-later :
    (r : Rest) (c c' : Controls) (l : Light)
    → (Announced c → Announced c')
    → Attentive r c l
    → Attentive r c' l
Attentive-later starting c c' l f h = tt
Attentive-later (blinking at) c c' l f h = tt
Attentive-later dark c c' l f (h, low) = (f h, low)

module _ ⦃ticks : Ticks⦄ where
  happen-Announced :
      (e : Event) (w : World) → Announced w.gate.controls → Announced (happen e w).gate.controls
  unfolding happen warning_light_active
  happen-Announced (pass time) w h = h
  happen-Announced (call k) w h = apply_call-Announced k w.gate.controls h
  happen-Announced (wake k) w h = resume-Announces k w.now w.gate h

  lamp_run-IsAttentive :
      (half_period : ℕ) (es : List LampEvent) (s : Lamp)
      → IsAttentive s
      → IsAttentive (lamp_run half_period es s)
  unfolding lamp_run poll
  lamp_run-IsAttentive half_period [] s h = h
  lamp_run-IsAttentive half_period (world_event e ∷ es) s h =
      lamp_run-IsAttentive half_period es _ (
        Attentive-later s.light.rest s.world.gate.controls (happen e s.world).gate.controls s.light
          (happen-Announced e s.world) h)
  lamp_run-IsAttentive half_period (light_poll ∷ es) s h =
      lamp_run-IsAttentive half_period es _ (poll_at-IsAttentive s.light.rest half_period s h)

  -- The poll of a light whose signal is set.
  woken :
      (r : Rest) (half_period : ℕ) (s : Lamp)
      → r ≡ dark
      → s.light.lit ≡ false
      → s.world.gate.controls.light_changed ≡ true
      → warning_light_active s.world.gate.controls ≡ true
      → (poll_at r half_period s).light ≡ record {
        lit = true;
        levels = true ∷ s.light.levels;
        rest = blinking (s.world.now + half_period);
      }
  unfolding poll_at check warning_light_active
  woken dark half_period s r low set on = ground arith
  woken starting half_period s r low set on = cc
  woken (blinking at) half_period s r low set on = cc

module _ ⦃ticks : Ticks⦄ (half_period : ℕ) (w : World) (es : List LampEvent) where
  abbrev after : Lamp
  after = lamp_run half_period es (record { world = w; light = new })

  after-IsAttentive : IsAttentive after
  unfolding new
  after-IsAttentive = lamp_run-IsAttentive half_period es (record { world = w; light = new }) tt

  -- Whatever the tasks do from the start of the light's task on: when that task sleeps at its
  -- signal while the gate is in a movement or the bypass is armed, the next poll of the task turns
  -- the light on, for half a period.
  pub light_wakes :
      after.light.rest ≡ dark
      → warning_light_active after.world.gate.controls ≡ true
      → (poll half_period after).light ≡ record {
        lit = true;
        levels = true ∷ after.light.levels;
        rest = blinking (after.world.now + half_period);
      }
  unfolding poll
  light_wakes r on =
      let (announced, low) =
        subst (λ x. Attentive x after.world.gate.controls after.light) r after-IsAttentive in
      woken after.light.rest half_period after r low (ground arith) on
