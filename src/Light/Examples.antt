-- ===== src/Light/Examples.antt =====
-- A light that went to sleep before a movement, and the theorem about it.
use gate_link.Prelude.{◌+◌, ◌≡◌, refl, true, false, List, [], ◌∷◌}
use gate_link.Time.{Ticks, micros}
use gate_link.Motor.{LeafTiming, Motor}
use gate_link.Motor
use gate_link.Controls.{call_open, warning_light_active}
use gate_link.Controls
use gate_link.Gate
use gate_link.Gate.World.{World, happen, call, wake, step_called, command}
use gate_link.Light.{
  blinking, dark, Light, LampEvent, world_event, light_poll, Lamp, lamp_run, poll,
}
use gate_link.Light
use gate_link.Physical.Config
use gate_link.Light.Wakeups.{light_wakes}

instance abbrev clock : Ticks
clock = micros

abbrev timing : LeafTiming
timing = record {
  open_initial_delay = 0;
  open_duration = 15_000_000;
  close_initial_delay = 0;
  close_duration = 15_000_000;
}

abbrev still : World
still = record {
  now = 5;
  gate =
      Gate.new Controls.new (Motor.new timing 1_000_000 1_000_000 0 0)
        (Motor.new timing 1_000_000 1_000_000 0 0) false;
}

abbrev opens : List LampEvent
opens =
    light_poll
    ∷ world_event (wake step_called)
    ∷ world_event (call call_open)
    ∷ world_event (wake command)
    ∷ []

abbrev after : Lamp
after =
    lamp_run Config.warning_light_half_period opens (record { world = still; light = Light.new })

asleep : after.light.rest ≡ dark
unfolding lamp_run Light.new warning_light_active Gate.new Controls.new
asleep = refl

moving : warning_light_active after.world.gate.controls ≡ true
unfolding lamp_run warning_light_active happen Light.new Gate.new Controls.apply_call
    Controls.resolve_impulse Controls.blocked Controls.new Controls.set_direction Motor.run_time
    Motor.new Motor.initial_delay Motor.ready_at
moving = refl

light_wakes_example : (poll Config.warning_light_half_period after).light ≡ record {
  lit = true;
  levels = true ∷ after.light.levels;
  rest = blinking (after.world.now + Config.warning_light_half_period);
}
light_wakes_example = light_wakes Config.warning_light_half_period still opens asleep moving
