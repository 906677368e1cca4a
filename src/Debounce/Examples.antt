-- ===== src/Debounce/Examples.antt =====
-- A button that bounces, and the theorems about it.
use gate_link.Prelude.{◌≡◌, ◌≤◌, ◌<◌, ◌↔◌, refl, true, false, Bool, List, [], ◌∷◌, arith}
use gate_link.Debounce.{Debouncer, feed}
use gate_link.Debounce.Presses.{IsSound, longest, reports-press}

abbrev bounces : List Bool
bounces = true ∷ false ∷ true ∷ true ∷ true ∷ true ∷ []

abbrev button : Debouncer
button = record { stable_samples = 3; armed = true; stable = 0 }

abbrev held : Debouncer
held = record { stable_samples = 3; armed = false; stable = 0 }

button-IsSound : IsSound button
button-IsSound = record {
  some_samples = omega arith;
  samples_fit = omega arith;
  below = omega arith;
}

one_press : (feed bounces button).1 ≡ 1
unfolding feed
one_press = refl

reports-press_example : (0 < (feed bounces button).1) ↔ (3 ≤ longest 0 bounces)
reports-press_example = reports-press bounces button button-IsSound refl
