-- ===== src/ResetButton/Examples.antt =====
-- A button that is held for five seconds, and the theorems about it.
use gate_link.Prelude.{ℕ, ◌≡◌, ◌↔◌, refl, Bool, true, some, List, [], ◌∷◌, arith}
use gate_link.Time.{Ticks, micros}
use gate_link.ResetButton.{held}
use gate_link.ResetButton.Holding.{HeldLong, held-HeldLong_iff}

instance abbrev clock : Ticks
clock = micros

abbrev readings : List (Bool × ℕ)
readings = (true, 0) ∷ (true, 2_500_000) ∷ (true, 5_000_001) ∷ []

held-HeldLong_iff_example : (held readings ≡ some true) ↔ HeldLong readings
held-HeldLong_iff_example = held-HeldLong_iff readings

long : HeldLong readings
long = record {
  index = 2;
  elapsed = 5_000_001;
  reading = refl;
  long = omega arith;
  before = (refl, (refl, tt));
}
