-- ===== src/Motor.antt =====
-- gate-core/src/motor.rs: one gate leaf, driven by an open relay and a close relay.
-- Times are in ticks. `now` is the reading of `Instant::now()`; the pins are `OutputPin`s whose
-- writes cannot fail, and the model keeps the log of all that is written to the two, newest first.
pub mod Relays
pub mod Travel
mod Examples
use gate_link.Prelude.{
  ℕ, ◌+◌, ◌-◌, ◌*◌, ◌/◌, ◌==◌, if◌then◌else◌, min, max, u64, Option, none, some, List, [], ◌∷◌,
}
use gate_link.Time.{Ticks}

pub data Direction : Type 0 where
  opening closing : Direction

pub Direction-discrete : Discrete Direction
Direction-discrete = hlevel

pub record LeafTiming : Type 0 where
  pub open_initial_delay : ℕ
  pub open_duration : ℕ
  pub close_initial_delay : ℕ
  pub close_duration : ℕ

pub data State : Type 0 where
  idle : State
  running : Direction → ℕ → State

pub data Pin : Type 0 where
  open_pin close_pin : Pin

-- A call of `OutputPin::set_low` or `set_high`, and when it was made.
pub data Write : Type 0 where
  set_low : Pin → ℕ → Write
  set_high : Pin → ℕ → Write

pub record Motor : Type 0 where
  pub writes : List Write
  pub position : ℕ  -- u8
  pub timing : LeafTiming
  pub end_stop_overrun : ℕ
  pub reverse_pause : ℕ
  pub state : State
  pub stopped_at : Option ℕ

unfoldable pub new : LeafTiming → ℕ → ℕ → ℕ → ℕ → Motor
new timing overrun pause initial_position now = record {
  writes = set_low close_pin now ∷ set_low open_pin now ∷ [];
  position = initial_position;
  timing = timing;
  end_stop_overrun = overrun;
  reverse_pause = pause;
  state = idle;
  stopped_at = none;
}

unfoldable pub full_duration : Motor → Direction → ℕ
full_duration m opening = m.timing.open_duration
full_duration m closing = m.timing.close_duration

unfoldable pub initial_delay : Motor → Direction → ℕ
initial_delay m opening = m.timing.open_initial_delay
initial_delay m closing = m.timing.close_initial_delay

ready_since : Option ℕ → ℕ → ℕ
ready_since (some t) pause = t + pause
ready_since none pause = 0

unfoldable pub ready_at : Motor → ℕ
unfolding ready_since
ready_at m = ready_since m.stopped_at m.reverse_pause

-- How far, of 255, the leaf is from its end. `255 - position` is exact, since a `u8` is at most 255.
unfoldable pub remaining : Motor → Direction → ℕ
remaining m opening = 255 - m.position
remaining m closing = m.position

-- `saturating_add` and `saturating_sub` on a `u8`.
unfoldable pub moved_to : ℕ → Direction → ℕ → ℕ
moved_to position opening distance = min (position + distance) 255
moved_to position closing distance = position - distance

-- The opposite relay is released before this one is energized.
energize : Direction → ℕ → List Write → List Write
energize opening now ws = set_high open_pin now ∷ set_low close_pin now ∷ ws
energize closing now ws = set_high close_pin now ∷ set_low open_pin now ∷ ws

module _ ⦃ticks : Ticks⦄ where
  unfoldable pub run_time : Motor → Direction → Option ℕ
  unfolding remaining full_duration
  run_time m d =
      let full = ticks.as_millis (full_duration m d) in
      if remaining m d == 0
      then none
      else some (ticks.from_millis (u64 (full * remaining m d) / 255) + m.end_stop_overrun)

  unfoldable pub travelled : Motor → Direction → ℕ → ℕ → ℕ
  unfolding full_duration
  travelled m d start now =
      let full = max (ticks.as_millis (full_duration m d)) 1 in
      min (u64 (ticks.as_millis (now - start) * 255) / full) 255

  settle_from : State → ℕ → Motor → Motor
  unfolding travelled moved_to
  settle_from idle now m = m
  settle_from (running d start) now m = record m {
    writes = set_low close_pin now ∷ set_low open_pin now ∷ m.writes;
    state = idle;
    stopped_at = some now;
    position = moved_to m.position d (travelled m d start now);
  }

  unfoldable pub settle : ℕ → Motor → Motor
  unfolding settle_from
  settle now m = settle_from m.state now m

  unfoldable pub start : ℕ → Direction → Motor → Motor
  unfolding settle energize
  start now d m =
      let m' = settle now m in
      record m' { writes = energize d now m'.writes; state = running d now }

  unfoldable pub stop : ℕ → Motor → Motor
  unfolding settle
  stop now m = settle now m
