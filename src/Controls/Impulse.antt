-- ===== src/Controls/Impulse.antt =====
-- The push button: what an impulse becomes, by where the gate stands and where it last went.
use gate_link.Prelude.{◌≡◌, arith}
use gate_link.Motor.{Direction, opening, closing}
use gate_link.Controls.{
  Controls, press_impulse, open_gate, close_gate, resolve_impulse, command_for, direction_code,
  pos_closed, pos_open, pos_partial,
}

abbrev pub opposite : Direction → Direction
opposite opening = closing
opposite closing = opening

pub impulse_when_closed :
    (c : Controls) → c.position ≡ pos_closed → resolve_impulse c press_impulse ≡ open_gate
unfolding resolve_impulse
impulse_when_closed c h = ground arith

pub impulse_when_open :
    (c : Controls) → c.position ≡ pos_open → resolve_impulse c press_impulse ≡ close_gate
unfolding resolve_impulse
impulse_when_open c h = ground arith

pub impulse_when_partial :
    (d : Direction) (c : Controls)
    → c.position ≡ pos_partial
    → c.last_direction ≡ direction_code d
    → resolve_impulse c press_impulse ≡ command_for (opposite d)
unfolding resolve_impulse command_for direction_code
impulse_when_partial opening c h l = ground arith
impulse_when_partial closing c h l = ground arith
