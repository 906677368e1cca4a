-- ===== src/Physical.antt =====
-- src/physical/gate.rs: the firmware around the gate.
pub mod Config
pub mod Persistence
pub mod Inputs
pub mod Reboot
pub mod Safety
pub mod Bypass
pub mod Bounds
pub mod Storm
pub mod Refinement
mod Examples
mod Scenarios
pub mod Board
use gate_link.Prelude.{ℕ, Bool}
use gate_link.Time.{Ticks}
use gate_link.Motor.{LeafTiming, Motor}
use gate_link.Motor
use gate_link.Controls.{Controls}
use gate_link.Gate
use gate_link.Gate.World.{World}
use Config.{end_stop_overrun, reverse_pause}

-- The two pins are handed over driven low.
pub record MotorSettings : Type 0 where
  pub timing : LeafTiming
  pub initial_position : ℕ  -- u8

module _ ⦃ticks : Ticks⦄ where
  unfoldable pub motor : MotorSettings → ℕ → Motor
  motor settings now =
      Motor.new settings.timing end_stop_overrun reverse_pause settings.initial_position now

  -- The start of the gate task. The other tasks may have called `controls` before it runs.
  unfoldable pub boot : ℕ → Controls → MotorSettings → MotorSettings → Bool → World
  unfolding motor
  boot now controls leaf_a leaf_b initial_wind_locked = record {
    now = now;
    gate = Gate.new controls (motor leaf_a now) (motor leaf_b now) initial_wind_locked;
  }
