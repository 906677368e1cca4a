-- ===== src/Controls/Blocking.antt =====
-- What may block a movement: the two light barriers, unless they are bypassed, and the wind lock.
use gate_link.Prelude.{◌≡◌, ◌⊎◌, Bool, true, false, ◌||◌, Option, none, some, arith}
use gate_link.Motor.{Direction}
use gate_link.Controls.{Controls, blocked, direction_code, Call, apply_call}

abbrev pub is_some {ℓ} : {A : Type ℓ} → Option A → Bool
is_some none = false
is_some (some _) = true

-- A movement that has become blocked has a signal pending that will wake the gate.
abbrev pub Alerted : Direction → Controls → Type 0
Alerted d c = (blocked c d ≡ none) ⊎ (c.barrier_changed || is_some c.command ≡ true)

-- No call of another task blocks a movement and leaves the gate asleep.
pub apply_call-Alerted :
    (k : Call) (d : Direction) (c : Controls) → Alerted d c → Alerted d (apply_call k c)
unfolding apply_call blocked
apply_call-Alerted k d c h = ground arith

-- The direction of the movement under way, remembered as the last one.
abbrev pub AtDirection : Direction → Controls → Type 0
AtDirection d c = (c.current_direction ≡ direction_code d) × (c.last_direction ≡ direction_code d)

pub apply_call-AtDirection :
    (k : Call) (d : Direction) (c : Controls) → AtDirection d c → AtDirection d (apply_call k c)
unfolding apply_call
apply_call-AtDirection k d c h = ground arith

pub direction-apply_call :
    (k : Call) (c : Controls) → (apply_call k c).current_direction ≡ c.current_direction
unfolding apply_call
direction-apply_call k c = ground arith
