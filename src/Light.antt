-- ===== src/Light.antt =====
-- gate-core/src/warning_light.rs: the task of the warning light, next to the gate task.
-- `Rest` is the await it is suspended at. The log holds what was written to its pin, newest first.
pub mod Wakeups
mod Examples
use gate_link.Prelude.{ℕ, ◌+◌, Bool, true, false, not, leb, if◌then◌else◌, List, [], ◌∷◌}
use gate_link.Time.{Ticks}
use gate_link.Controls.{Controls, warning_light_active}
use gate_link.Gate.World.{World, Event, happen}

-- Before its first check, at the timer, or at the signal.
pub data Rest : Type 0 where
  starting : Rest
  blinking : ℕ → Rest
  dark : Rest

pub record Light : Type 0 where
  pub lit : Bool
  pub levels : List Bool
  pub rest : Rest

unfoldable pub new : Light
new = record { lit = false; levels = []; rest = starting }

-- The body of the loop.
unfoldable pub check : ℕ → ℕ → Controls → Light → Light
check half_period now c l =
    let lit = not l.lit in
    if warning_light_active c
    then record { lit = lit; levels = lit ∷ l.levels; rest = blinking (now + half_period) }
    else record { lit = false; levels = false ∷ l.levels; rest = dark }

-- The gate among the other tasks, and the light.
pub record Lamp : Type 0 where
  pub world : World
  pub light : Light

taken_change : World → World
taken_change w =
    let g = w.gate in
    let c = g.controls in
    record w { gate = record g { controls = record c { light_changed = false } } }

checked : ℕ → World → Light → Lamp
unfolding check
checked half_period w l = record { world = w; light = check half_period w.now w.gate.controls l }

poll_at : Rest → ℕ → Lamp → Lamp
unfolding checked taken_change
poll_at starting half_period s = checked half_period s.world s.light
poll_at (blinking at) half_period s =
    if leb at s.world.now then checked half_period s.world s.light else s
poll_at dark half_period s =
    if s.world.gate.controls.light_changed
    then checked half_period (taken_change s.world) s.light
    else s

-- A poll of the light's task.
unfoldable pub poll : ℕ → Lamp → Lamp
unfolding poll_at
poll half_period s = poll_at s.light.rest half_period s

pub data LampEvent : Type 0 where
  world_event : Event → LampEvent
  light_poll : LampEvent

module _ ⦃ticks : Ticks⦄ where
  unfoldable pub lamp_happen : ℕ → LampEvent → Lamp → Lamp
  unfolding poll
  lamp_happen half_period (world_event e) s = record s { world = happen e s.world }
  lamp_happen half_period light_poll s = poll half_period s

  unfoldable pub lamp_run : ℕ → List LampEvent → Lamp → Lamp
  unfolding lamp_happen
  lamp_run half_period [] s = s
  lamp_run half_period (e ∷ es) s = lamp_run half_period es (lamp_happen half_period e s)
