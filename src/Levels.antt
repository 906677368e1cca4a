-- ===== src/Levels.antt =====
-- src/physical/inputs.rs: `level_task`, which follows the two light barriers, and the wiring of its
-- setters in src/bin/main.rs.
pub mod Tracking
mod Examples
use gate_link.Prelude.{Bool, true, false, not, if◌then◌else◌, List, [], ◌∷◌}
use gate_link.Controls.{
  Controls, Call, call_barrier1_set, call_barrier2_set, apply_call, barrier1_set, barrier2_set,
}

pub data Barrier : Type 0 where
  light_barrier1 light_barrier2 : Barrier

-- The setter that the task of a barrier is spawned with.
unfoldable pub setter : Barrier → Bool → Controls → Controls
setter light_barrier1 active c = barrier1_set active c
setter light_barrier2 active c = barrier2_set active c

-- The task's local, and what it shares.
pub record Level : Type 0 where
  pub last_active : Bool
  pub controls : Controls

unfoldable pub differ : Bool → Bool → Bool
differ true b = not b
differ false b = b

unfoldable pub begin_level : Barrier → Bool → Controls → Level
unfolding setter
begin_level b active c = record { last_active = active; controls = setter b active c }

-- A round of the loop; the argument is what the pin reads.
unfoldable pub level_round : Barrier → Bool → Level → Level
unfolding setter differ
level_round b active l =
    if differ active l.last_active
    then record { last_active = active; controls = setter b active l.controls }
    else l

-- A round, or a call of another task.
pub data LevelEvent : Type 0 where
  sampled : Bool → LevelEvent
  called : Call → LevelEvent

unfoldable pub follow : Barrier → List LevelEvent → Level → Level
unfolding level_round
follow b [] l = l
follow b (sampled active ∷ es) l = follow b es (level_round b active l)
follow b (called k ∷ es) l =
    follow b es (record { last_active = l.last_active; controls = apply_call k l.controls })
