-- ===== src/Physical/Safety.antt =====
-- src/physical/gate.rs and gate-core/src/gate.rs: the gate from the start of its task on, among the
-- other tasks.
use gate_link.Prelude.{
  ℕ, ◌≤◌, ◌≡◌, ◌⊎◌, refl, Bool, true, false, ◌||◌, some, List, [], ◌∷◌, ◌+◌, arith,
}
use mathlib.Core.Path.{subst}
use gate_link.Time.{Ticks}
use gate_link.Motor.{closing, Direction, Motor, new, running, open_pin, close_pin}
use gate_link.Motor.Relays.{
  IsSound, Rested, Exclusive, is_high, relay_of, other_relay, new-IsSound, running-Rested,
  idle-Released,
}
use gate_link.Controls.{
  call_wind_trigger, apply_call, dir_opening, Controls, blocked, Reason, cover_state, is_open,
  is_closed, press_impulse, pos_partial, resolve_impulse, command_for,
}
use gate_link.Controls.Blocking.{is_some}
use gate_link.Gate.{Phase, Task, driving, returned, listening, Gate}
use gate_link.Gate
use gate_link.Gate.Invariant.{IsSafe, AtRest, TaskFits}
use gate_link.Gate.World.{World, Event, pass, call, wake, Wake, step_called, command, run, resume}
use gate_link.Gate.World.Reversal.{impulse_halts, impulse_reverses}
use gate_link.Gate.World.Storm.{storm_reverses}
use gate_link.Controls.Impulse.{opposite}
use gate_link.Gate.World.Polls.{is_driving, is_ready, resume-Halts}
use gate_link.Gate.World.Safety.{IsSafeWorld, run-IsSafe, resume-IsSafe}
use gate_link.Physical.{MotorSettings, boot}

pub data Side : Type 0 where
  side_a side_b : Side

abbrev pub leaf : Side → Gate → Motor
leaf side_a g = g.a
leaf side_b g = g.b

-- The four relays are released.
abbrev pub Released : Gate → Type 0
Released g =
    (is_high open_pin g.a.writes ≡ false)
    × (is_high close_pin g.a.writes ≡ false)
    × (is_high open_pin g.b.writes ≡ false)
    × (is_high close_pin g.b.writes ≡ false)

at_rest :
    (t : Task) (c : Controls) (a b : Motor) → is_driving t ≡ false → TaskFits t c a b → AtRest c a b
at_rest (returned _) c a b h f = f
at_rest listening c a b h f = f
at_rest (driving _ _ _ _ _) c a b h f = cc

pub IsSafe-Released : {now : ℕ} {g : Gate} → IsSafe now g → is_driving g.task ≡ false → Released g
IsSafe-Released {now} {g} s h =
    let rest = at_rest g.task g.controls g.a g.b h s.fits in
    let ra = idle-Released s.a_sound rest.0 in
    let rb = idle-Released s.b_sound rest.1 in (ra.0, ra.1, rb.0, rb.1)

-- The wind guard trips, and the gate task takes its command.
abbrev pub trips : List Event
trips = call call_wind_trigger ∷ wake command ∷ []

abbrev pub steps_after : ℕ → List Event
steps_after time = pass time ∷ wake step_called ∷ []

module _ ⦃ticks : Ticks⦄ where
  pub boot-IsSafe :
      (now : ℕ) (c : Controls) (a b : MotorSettings) (locked : Bool)
      → a.initial_position ≤ 255
      → b.initial_position ≤ 255
      → IsSafeWorld (boot now c a b locked)
  unfolding boot Gate.new new
  boot-IsSafe now c a b locked ha hb = record {
    a_sound = new-IsSound a.timing _ _ a.initial_position now ha;
    b_sound = new-IsSound b.timing _ _ b.initial_position now hb;
    fits = (refl, refl, refl);
  }

module _ ⦃ticks : Ticks⦄ (now : ℕ) (c : Controls) (a b : MotorSettings) (locked : Bool)
    (ha : a.initial_position ≤ 255) (hb : b.initial_position ≤ 255) (es : List Event) where
  abbrev after : World
  after = run es (boot now c a b locked)

  after-IsSafe : IsSafeWorld after
  after-IsSafe = run-IsSafe es (boot now c a b locked) (boot-IsSafe now c a b locked ha hb)

  sound : (side : Side) → IsSound after.now (leaf side after.gate)
  sound side_a = after-IsSafe.a_sound
  sound side_b = after-IsSafe.b_sound

  -- From the start of the gate task on, at no moment are the open relay and the close relay of a
  -- leaf energized together: not after any of the writes to its pins, in the order they were made,
  -- whatever the other tasks call, however time passes and whenever the gate task is polled. The
  -- restored positions are in the range of a u8.
  pub relays-Exclusive : Exclusive after.gate.a.writes × Exclusive after.gate.b.writes
  relays-Exclusive = (after-IsSafe.a_sound.exclusive, after-IsSafe.b_sound.exclusive)

  -- From the start on, whenever the gate task is not inside a movement, all four relays are
  -- released and the cover is reported as open or closed, never as opening or closing.
  pub Released-at_rest :
      is_driving after.gate.task ≡ false
      → Released after.gate
        × ((cover_state after.gate.controls ≡ is_open)
            ⊎ (cover_state after.gate.controls ≡ is_closed))
  unfolding cover_state
  Released-at_rest h =
      let w = after.gate in
      let rest = at_rest w.task w.controls w.a w.b h after-IsSafe.fits in
      (IsSafe-Released after-IsSafe h, ground arith)

  -- From the start on, when a movement in some direction has become blocked, the signal of the
  -- light barriers or the command slot holds a value, so that the gate task is woken.
  pub blocked_movement_alerted :
      (d : Direction) (a_phase b_phase : Phase) (moved : Bool) (deadline : ℕ) (r : Reason)
      → after.gate.task ≡ driving d a_phase b_phase moved deadline
      → blocked after.gate.controls d ≡ some r
      → after.gate.controls.barrier_changed || is_some after.gate.controls.command ≡ true
  blocked_movement_alerted d a_phase b_phase moved deadline r t e =
      let w = after.gate in
      let fits = subst (λ s. TaskFits s w.controls w.a w.b) t after-IsSafe.fits in
      ground (arith, fits.3)

  -- From the start on, when a movement in some direction has become blocked, by a light barrier or
  -- by the wind lock, then whichever future of the gate task is ready first, that poll ends the
  -- movement and all four relays are released behind it.
  pub blocked_movement_stops :
      (d : Direction) (a_phase b_phase : Phase) (moved : Bool) (deadline : ℕ) (r : Reason)
      (k : Wake)
      → after.gate.task ≡ driving d a_phase b_phase moved deadline
      → blocked after.gate.controls d ≡ some r
      → is_ready k after.now after.gate ≡ true
      → (is_driving (resume k after.now after.gate).task ≡ false)
        × Released (resume k after.now after.gate)
  blocked_movement_stops d a_phase b_phase moved deadline r k t e h =
      let over = resume-Halts k after.now after.gate t h e in
      (over, IsSafe-Released (resume-IsSafe k after-IsSafe) over)

  -- From the start on, a leaf that runs was started no earlier than its reverse pause after it was
  -- last stopped, and it has the relay of its direction energized and the other one released.
  pub running_leaf_rested :
      (side : Side) (d : Direction) (since t : ℕ)
      → (leaf side after.gate).state ≡ running d since
      → (leaf side after.gate).stopped_at ≡ some t
      → (t + (leaf side after.gate).reverse_pause ≤ since)
        × (is_high (relay_of d) (leaf side after.gate).writes ≡ true)
        × (is_high (other_relay d) (leaf side after.gate).writes ≡ false)
  running_leaf_rested side d since t e st =
      let m = leaf side after.gate in
      let (own, other, _, rest) = running-Rested d since (sound side) e in
      (subst (Rested since m.reverse_pause) st rest, own, other)

  -- From the start on, when the gate moves in some direction, an impulse is in the command slot,
  -- and the poll that takes it leaves the gate partly open: that poll ends the movement with all
  -- four relays released, and a further impulse is a command for the opposite direction.
  pub impulse_stops_and_reverses :
      (d : Direction) (a_phase b_phase : Phase) (moved : Bool) (deadline : ℕ)
      → after.gate.task ≡ driving d a_phase b_phase moved deadline
      → after.gate.controls.command ≡ some press_impulse
      → (resume command after.now after.gate).controls.position ≡ pos_partial
      → (is_driving (resume command after.now after.gate).task ≡ false)
        × Released (resume command after.now after.gate)
        × (resolve_impulse (resume command after.now after.gate).controls press_impulse
            ≡ command_for (opposite d))
  impulse_stops_and_reverses d a_phase b_phase moved deadline t e p =
      let w = after.gate in
      let fits = subst (λ s. TaskFits s w.controls w.a w.b) t after-IsSafe.fits in
      let over = impulse_halts d after.now a_phase b_phase moved deadline w t e in
      (
        over,
        IsSafe-Released (resume-IsSafe command after-IsSafe) over,
        impulse_reverses d after.now a_phase b_phase moved deadline w t e fits.0 p,
      )

  -- From the start on, when the wind guard trips while the gate closes, and light barrier 1 is
  -- clear: the poll that takes the guard's command ends the closing movement with all four relays
  -- released, and behind the next step, however much later, the direction last taken is opening.
  pub wind_trigger_reverses :
      (a_phase b_phase : Phase) (moved : Bool) (deadline time : ℕ)
      → after.gate.task ≡ driving closing a_phase b_phase moved deadline
      → after.gate.controls.barrier1_active ≡ false
      → (is_driving (run trips after).gate.task ≡ false)
        × Released (run trips after).gate
        × ((run (steps_after time) (run trips after)).gate.controls.last_direction ≡ dir_opening)
  unfolding run apply_call
  wind_trigger_reverses a_phase b_phase moved deadline time t free =
      let (over, opens) =
        storm_reverses after.now (after.now + time) a_phase b_phase moved deadline after.gate t
          free in
      (over, IsSafe-Released (run-IsSafe trips after after-IsSafe) over, opens)
