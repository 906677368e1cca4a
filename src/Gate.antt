-- ===== src/Gate.antt =====
-- gate-core/src/gate.rs: `Gate`, the task that owns the two leaf motors.
-- The `async fn`s `step` and `drive` are cut at their `await`s: `task` says at which of them the
-- gate waits, with the locals that live across it, and a function runs the code from one `await`
-- to the next. The clock stands still in between: `now` is one reading for each such run.
pub mod World
pub mod Turns
pub mod Deadlines
pub mod Progress
pub mod Invariant
pub mod Cover
use gate_link.Prelude.{
  ℕ, ◌+◌, Bool, true, false, ◌&&◌, ◌==◌, leb, if◌then◌else◌, min, max, Option, none, some, List, [],
  ◌∷◌,
}
use gate_link.Time.{Ticks}
use gate_link.Motor.{
  Direction, opening, closing, Motor, initial_delay, ready_at, run_time, start, stop,
}
use gate_link.Controls.{
  Controls, GateCommand, open_gate, close_gate, stop_gate, press_impulse, Snapshot, dir_idle,
  pos_closed, pos_partial, pos_open, blocked, resolve_impulse, set_direction,
}

pub data Phase : Type 0 where
  waiting : ℕ → Phase
  running : ℕ → Phase
  done : Phase

-- Where the gate task is suspended: behind a completed `step`, which returned the snapshot; at the
-- `select` of `step`; or at the `select4` of `drive`, with its direction, the phases of the two
-- leaves, `moved` and `next_deadline`.
pub data Task : Type 0 where
  returned : Snapshot → Task
  listening : Task
  driving : Direction → Phase → Phase → Bool → ℕ → Task

-- `notify` is a callback; the log holds the controls that it saw at each call, newest first.
pub record Gate : Type 0 where
  pub controls : Controls
  pub a : Motor
  pub b : Motor
  pub pending : Option GateCommand
  pub notified : List Controls
  pub task : Task

unfoldable pub notify : Gate → Gate
notify g = record g { notified = g.controls ∷ g.notified }

unfoldable pub snapshot : Gate → Snapshot
snapshot g = record {
  leaf_a_position = g.a.position;
  leaf_b_position = g.b.position;
  wind_locked = g.controls.wind_locked;
}

unfoldable pub classify : ℕ → ℕ → ℕ
classify a b =
    if a == 0 && b == 0 then pos_closed else if a == 255 && b == 255 then pos_open else pos_partial

unfoldable pub settle : Gate → Gate
unfolding notify snapshot classify
settle g =
    let controls = record g.controls {
      current_direction = dir_idle;
      position = classify g.a.position g.b.position;
    } in
    record (notify (record g { controls = controls })) { task = returned (snapshot g) }

then_some : Bool → GateCommand → Option GateCommand
then_some true cmd = some cmd
then_some false cmd = none

unfoldable pub new : Controls → Motor → Motor → Bool → Gate
unfolding settle then_some
new controls a b initial_wind_locked = settle (record {
  controls = record controls { wind_locked = initial_wind_locked };
  a = a;
  b = b;
  pending = then_some initial_wind_locked open_gate;
  notified = [];
  task = listening;
})

unfoldable pub map_or_min : Option ℕ → ℕ → ℕ
map_or_min (some next) deadline = min next deadline
map_or_min none deadline = deadline

-- One leaf in the loop of `drive`, with the locals that its turn may change.
pub record Turn : Type 0 where
  pub motor : Motor
  pub phase : Phase
  pub moved : Bool
  pub next_deadline : Option ℕ

module _ ⦃ticks : Ticks⦄ where
  plan_run : Option ℕ → Motor → Direction → ℕ → Phase
  plan_run none m d now = done
  plan_run (some _) m d now = waiting (max (now + initial_delay m d) (ready_at m))

  unfoldable pub plan : Motor → Direction → ℕ → Phase
  unfolding plan_run
  plan m d now = plan_run (run_time m d) m d now

  begin_run : Option ℕ → Direction → ℕ → Turn → Turn
  begin_run none d now t = record t { phase = done }
  begin_run (some time) d now t = record t {
    motor = start now d t.motor;
    moved = true;
    phase = running (now + time);
  }

  start_due : Phase → Direction → ℕ → Turn → Turn
  unfolding begin_run
  start_due (waiting at) d now t = if leb at now then begin_run (run_time t.motor d) d now t else t
  start_due _ d now t = t

  stop_due : Phase → ℕ → Turn → Turn
  stop_due (running at) now t =
      if leb at now then record t { motor = stop now t.motor; phase = done } else t
  stop_due _ now t = t

  add_deadline : Phase → Turn → Turn
  unfolding map_or_min
  add_deadline (waiting at) t = record t { next_deadline = some (map_or_min t.next_deadline at) }
  add_deadline (running at) t = record t { next_deadline = some (map_or_min t.next_deadline at) }
  add_deadline done t = t

  -- The body of the `for` loop over the leaves.
  unfoldable pub turn : Direction → ℕ → Turn → Turn
  unfolding start_due stop_due add_deadline
  turn d now t =
      let t' = start_due t.phase d now t in
      let t'' = stop_due t'.phase now t' in add_deadline t''.phase t''

  -- Behind the loop of `drive`, and the assignment of its result in `step`.
  unfoldable pub finish : ℕ → Bool → Option GateCommand → Gate → Gate
  unfolding settle
  finish now moved result g =
      let c = g.controls in
      settle (record g {
        a = stop now g.a;
        b = stop now g.b;
        controls = record c { barrier_bypass = if moved then false else c.barrier_bypass };
        pending = result;
      })

  suspend : Option ℕ → Direction → ℕ → Turn → Turn → Gate → Gate
  unfolding finish
  suspend none d now ta tb g = finish now tb.moved none g
  suspend (some deadline) d now ta tb g = record g {
    task = driving d ta.phase tb.phase tb.moved deadline;
  }

  abbrev pub a_turn : Direction → ℕ → Phase → Bool → Gate → Turn
  a_turn d now a_phase moved g =
      turn d now (record { motor = g.a; phase = a_phase; moved = moved; next_deadline = none })

  abbrev pub b_turn : Direction → ℕ → Phase → Turn → Gate → Turn
  b_turn d now b_phase ta g =
      turn d now (record {
        motor = g.b;
        phase = b_phase;
        moved = ta.moved;
        next_deadline = ta.next_deadline;
      })

  -- A round of the loop of `drive`, up to its `select4`.
  unfoldable pub round : Direction → ℕ → Phase → Phase → Bool → Gate → Gate
  unfolding turn suspend finish
  round d now a_phase b_phase moved g =
      let ta = a_turn d now a_phase moved g in
      let tb = b_turn d now b_phase ta g in
      elim (blocked g.controls d) [
        | some _ ↦ finish now moved none g
        | none ↦ suspend tb.next_deadline d now ta tb (record g { a = ta.motor; b = tb.motor })
      ]

  unfoldable pub drive : Direction → ℕ → Gate → Gate
  unfolding round notify plan settle
  drive d now g = elim (blocked g.controls d) [
    | some _ ↦ settle (record g { pending = none })
    | none ↦
        round d now (plan g.a d now) (plan g.b d now) false
          (notify (record g { controls = set_direction d g.controls }))
  ]

  halt : ℕ → Gate → Gate
  unfolding settle
  halt now g = settle (record g { a = stop now g.a; b = stop now g.b; pending = none })

  run_command : GateCommand → ℕ → Gate → Gate
  unfolding drive halt
  run_command open_gate now g = drive opening now g
  run_command close_gate now g = drive closing now g
  run_command stop_gate now g = halt now g
  run_command press_impulse now g = halt now g

  -- `step` from a command on.
  unfoldable pub execute : GateCommand → ℕ → Gate → Gate
  unfolding run_command
  execute cmd now g = run_command (resolve_impulse g.controls cmd) now g
