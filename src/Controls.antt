-- ===== src/Controls.antt =====
-- gate-core/src/gate.rs: `GateCommand`, `CoverState` and `Controls`, what the gate task shares
-- with the tasks that watch the inputs and the broker.
-- An atomic is its value. A `Signal` of embassy_sync is a slot: `signal` replaces what it holds, a
-- completed `wait` takes it; the slot of a `Signal<()>` holds `true` when it was signalled.
-- A method takes `&self` and mutates the shared state: here it returns the new state.
pub mod Blocking
pub mod Impulse
pub mod Lighting
use gate_link.Prelude.{
  ℕ, Bool, true, false, not, ◌&&◌, ◌||◌, ◌==◌, if◌then◌else◌, Option, none, some,
}
use gate_link.Motor.{Direction, opening, closing}

-- `Open`, `Close`, `Stop`, `Impulse`
pub data GateCommand : Type 0 where
  open_gate close_gate stop_gate press_impulse : GateCommand

-- `Open`, `Opening`, `Closed`, `Closing`
pub data CoverState : Type 0 where
  is_open is_opening is_closed is_closing : CoverState

pub record Snapshot : Type 0 where
  pub leaf_a_position : ℕ  -- u8
  pub leaf_b_position : ℕ  -- u8
  pub wind_locked : Bool

abbrev pub dir_idle : ℕ
dir_idle = 0

abbrev pub dir_opening : ℕ
dir_opening = 1

abbrev pub dir_closing : ℕ
dir_closing = 2

abbrev pub pos_closed : ℕ
pos_closed = 0

abbrev pub pos_partial : ℕ
pos_partial = 1

abbrev pub pos_open : ℕ
pos_open = 2

pub record Controls : Type 0 where
  pub command : Option GateCommand
  pub barrier_changed : Bool
  pub wind_lock_reset : Bool
  pub current_direction : ℕ  -- u8
  pub last_direction : ℕ  -- u8
  pub position : ℕ  -- u8
  pub wind_locked : Bool
  pub barrier1_active : Bool
  pub barrier2_active : Bool
  pub barrier_bypass : Bool
  pub light_changed : Bool

unfoldable pub new : Controls
new = record {
  command = none;
  barrier_changed = false;
  wind_lock_reset = false;
  current_direction = dir_idle;
  last_direction = dir_closing;
  position = pos_closed;
  wind_locked = false;
  barrier1_active = false;
  barrier2_active = false;
  barrier_bypass = false;
  light_changed = false;
}

unfoldable pub send : GateCommand → Controls → Controls
send cmd c = record c { command = some cmd }

-- `open`, `close`, `stop` and `impulse` share their guard: the wind lock ignores them all.
unfoldable pub open_request : Controls → Controls
unfolding send
open_request c = if c.wind_locked then c else send open_gate c

unfoldable pub close_request : Controls → Controls
unfolding send
close_request c = if c.wind_locked then c else send close_gate c

unfoldable pub stop_request : Controls → Controls
unfolding send
stop_request c = if c.wind_locked then c else send stop_gate c

unfoldable pub impulse : Controls → Controls
unfolding send
impulse c = if c.wind_locked then c else send press_impulse c

unfoldable pub wind_trigger : Controls → Controls
unfolding send
wind_trigger c = send open_gate (record c { wind_locked = true })

unfoldable pub reset_wind_lock : Controls → Controls
reset_wind_lock c = record c { wind_locked = false; wind_lock_reset = true }

unfoldable pub barrier1_set : Bool → Controls → Controls
unfolding send
barrier1_set active c =
    let c' = record c { barrier1_active = active; barrier_changed = true } in
    if not active && c'.wind_locked then send open_gate c' else c'

unfoldable pub barrier2_set : Bool → Controls → Controls
barrier2_set active c = record c { barrier2_active = active; barrier_changed = true }

unfoldable pub set_barrier_bypass : Bool → Controls → Controls
set_barrier_bypass active c = record c {
  barrier_bypass = active;
  barrier_changed = true;
  light_changed = true;
}

unfoldable pub warning_light_active : Controls → Bool
warning_light_active c = not (c.current_direction == dir_idle) || c.barrier_bypass

unfoldable pub cover_state : Controls → CoverState
cover_state c =
    if c.current_direction == dir_opening
    then is_opening
    else if c.current_direction == dir_closing
    then is_closing
    else if c.position == pos_closed
    then is_closed
    else is_open

-- The reason that `blocked` gives, in place of its text.
pub data Reason : Type 0 where
  barrier1_interrupted barrier2_interrupted wind_lock_engaged : Reason

abbrev pub is_closing_direction : Direction → Bool
is_closing_direction opening = false
is_closing_direction closing = true

unfoldable pub blocked : Controls → Direction → Option Reason
blocked c d =
    let barriers_checked = not c.barrier_bypass in
    if barriers_checked && c.barrier1_active
    then some barrier1_interrupted
    else if barriers_checked && (is_closing_direction d && c.barrier2_active)
    then some barrier2_interrupted
    else if is_closing_direction d && c.wind_locked
    then some wind_lock_engaged
    else none

resolve_idle : Controls → GateCommand
resolve_idle c =
    if c.position == pos_closed
    then open_gate
    else if c.position == pos_open
    then close_gate
    else if c.last_direction == dir_opening
    then close_gate
    else open_gate

unfoldable pub resolve_impulse : Controls → GateCommand → GateCommand
unfolding resolve_idle
resolve_impulse c press_impulse = resolve_idle c
resolve_impulse c cmd = cmd

unfoldable pub direction_code : Direction → ℕ
direction_code opening = dir_opening
direction_code closing = dir_closing

unfoldable pub set_direction : Direction → Controls → Controls
unfolding direction_code
set_direction d c = record c {
  current_direction = direction_code d;
  last_direction = direction_code d;
  light_changed = true;
}

unfoldable pub command_for : Direction → GateCommand
command_for opening = open_gate
command_for closing = close_gate

-- A call that another task makes.
pub data Call : Type 0 where
  call_open call_close call_stop call_impulse call_wind_trigger call_reset_wind_lock : Call
  call_barrier1_set call_barrier2_set call_set_barrier_bypass : Bool → Call

unfoldable pub apply_call : Call → Controls → Controls
unfolding open_request close_request stop_request impulse wind_trigger reset_wind_lock barrier1_set
    barrier2_set set_barrier_bypass
apply_call call_open = open_request
apply_call call_close = close_request
apply_call call_stop = stop_request
apply_call call_impulse = impulse
apply_call call_wind_trigger = wind_trigger
apply_call call_reset_wind_lock = reset_wind_lock
apply_call (call_barrier1_set active) = barrier1_set active
apply_call (call_barrier2_set active) = barrier2_set active
apply_call (call_set_barrier_bypass active) = set_barrier_bypass active
