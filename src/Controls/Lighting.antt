-- ===== src/Controls/Lighting.antt =====
-- The warning light's condition, and the signal that wakes its task.
use gate_link.Prelude.{◌≡◌, not, ◌||◌, true, arith}
use gate_link.Motor.{Direction, opening, closing}
use gate_link.Controls.{Controls, warning_light_active, set_direction, Call, apply_call}

-- If the light should blink, its signal is set.
abbrev pub Announced : Controls → Type 0
Announced c = not (warning_light_active c) || c.light_changed ≡ true

pub apply_call-Announced : (k : Call) (c : Controls) → Announced c → Announced (apply_call k c)
unfolding apply_call warning_light_active
apply_call-Announced k c h = ground arith

pub set_direction-Announced : (d : Direction) (c : Controls) → Announced (set_direction d c)
unfolding set_direction warning_light_active
set_direction-Announced opening c = ground arith
set_direction-Announced closing c = ground arith
