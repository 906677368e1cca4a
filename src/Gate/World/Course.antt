-- ===== src/Gate/World/Course.antt =====
-- Where the two leaves are, next to what the gate task and the controls say of them, however late
-- the gate task is polled.
pub mod Runs
use gate_link.Prelude.{
  ℕ, ◌+◌, ◌≤◌, ◌≡◌, refl, ◌∙◌, sym, Bool, true, false, leb, if-intro, inl, inr, Option-cases,
  Option, none, some, List, [], ◌∷◌, arith,
}
use mathlib.Core.Path.{subst}
use gate_link.Time.{Ticks}
use gate_link.Motor.{Direction, idle, Motor, stop}
use gate_link.Motor.Travel.{end_of, as_millis-le}
use gate_link.Motor.Relays.{stop-idle}
use gate_link.Controls.{
  Controls, GateCommand, open_gate, close_gate, stop_gate, press_impulse, resolve_impulse,
  command_for, blocked, set_direction, Call, apply_call,
}
use gate_link.Motor.{opening, closing}
use gate_link.Gate
use gate_link.Gate.{
  Phase, done, Task, returned, listening, driving, Gate, Turn, notify, classify, settle, halt,
  finish, suspend, round, drive, plan, run_command, execute, a_turn, b_turn,
}
use gate_link.Gate.Deadlines.{with_deadline, both_done, join_deadlines}
use gate_link.Gate.Progress.{IsFit, turn_of}
use gate_link.Gate.Progress.Lateness.{
  Short, Tracks, KeepsTrack, stop-IsFit, turn-KeepsTrack, plan-Tracks,
}
use gate_link.Gate.World.{
  Wake, step_called, timer, command, barrier_changed, wind_lock_reset, same_command, taken_command,
  taken_barrier, taken_reset, begin_step, heard, interrupted, handed_back, resume_at, resume, World,
  Event, pass, call, wake, happen, run,
}

-- Between movements the leaves stand, and the position of the controls is theirs.
abbrev pub Settled : Controls → Motor → Motor → Type 0
Settled c a b = (a.state ≡ idle) × (b.state ≡ idle) × (c.position ≡ classify a.position b.position)

module _ ⦃ticks : Ticks⦄ where
  abbrev pub Legs : Task → Controls → Motor → Motor → Type 0
  Legs (returned _) c a b = Settled c a b
  Legs listening c a b = Settled c a b
  Legs (driving d a_phase b_phase moved deadline) c a b = Tracks d a_phase a × Tracks d b_phase b

  pub record OnCourse (g : Gate) : Type 0 where
    pub a_fit : IsFit g.a
    pub b_fit : IsFit g.b
    pub legs : Legs g.task g.controls g.a g.b

  pub settle-OnCourse :
      (g : Gate) → IsFit g.a → IsFit g.b → g.a.state ≡ idle → g.b.state ≡ idle → OnCourse (settle g)
  unfolding settle
  settle-OnCourse g fa fb ia ib = record { a_fit = fa; b_fit = fb; legs = (ia, ib, refl) }

  pub new-OnCourse :
      (c : Controls) (a b : Motor) (locked : Bool)
      → IsFit a
      → IsFit b
      → a.state ≡ idle
      → b.state ≡ idle
      → OnCourse (Gate.new c a b locked)
  unfolding Gate.new settle
  new-OnCourse c a b locked fa fb ia ib = record { a_fit = fa; b_fit = fb; legs = (ia, ib, refl) }

  pub finish-OnCourse :
      (now : ℕ) (moved : Bool) (p : Option GateCommand) (g : Gate)
      → IsFit g.a
      → IsFit g.b
      → OnCourse (finish now moved p g)
  unfolding finish
  finish-OnCourse now moved p g fa fb = record {
    a_fit = stop-IsFit now g.a fa;
    b_fit = stop-IsFit now g.b fb;
    legs = (stop-idle now g.a, stop-idle now g.b, refl);
  }

  suspend-OnCourse :
      (next : Option ℕ) (d : Direction) (now : ℕ) (ta tb : Turn) (g : Gate)
      → IsFit ta.motor
      → IsFit tb.motor
      → Tracks d ta.phase ta.motor
      → Tracks d tb.phase tb.motor
      → OnCourse (suspend next d now ta tb (record g { a = ta.motor; b = tb.motor }))
  unfolding suspend
  suspend-OnCourse none d now ta tb g fa fb la lb =
      finish-OnCourse now tb.moved none (record g { a = ta.motor; b = tb.motor }) fa fb
  suspend-OnCourse (some deadline) d now ta tb g fa fb la lb = record {
    a_fit = fa;
    b_fit = fb;
    legs = (la, lb);
  }

  module _ (now : ℕ) (short : Short now) where
    -- A round on leaves that are on their way.
    abbrev pub OnTheWay : Direction → Phase → Phase → Gate → Type 0
    OnTheWay d a b g = IsFit g.a × IsFit g.b × Tracks d a g.a × Tracks d b g.b

    pub round_turns :
        (d : Direction) (a b : Phase) (moved : Bool) (g : Gate)
        → OnTheWay d a b g
        → let ta = a_turn d now a moved g in
          KeepsTrack d none ta × KeepsTrack d ta.next_deadline (b_turn d now b ta g)
    round_turns d a b moved g (fa, fb, la, lb) =
        let ta = a_turn d now a moved g in
        (
          turn-KeepsTrack d now a g.a moved none short la fa,
          turn-KeepsTrack d now b g.b ta.moved ta.next_deadline short lb fb,
        )

    pub round-OnCourse :
        (d : Direction) (a b : Phase) (moved : Bool) (g : Gate)
        → OnTheWay d a b g
        → OnCourse (round d now a b moved g)
    unfolding round
    round-OnCourse d a b moved g way = elim (Option-cases (blocked g.controls d)) [
      | inl free ↦
          let ta = a_turn d now a moved g in
          let tb = b_turn d now b ta g in
          let (ka, kb) = round_turns d a b moved g way in
          rw (free, round)
            (suspend-OnCourse tb.next_deadline d now ta tb g ka.fit kb.fit ka.tracks kb.tracks)
      | inr (_, stuck) ↦ rw (stuck, round) (finish-OnCourse now moved none g way.0 way.1)
    ]

    drive-OnCourse :
        (d : Direction) (g : Gate)
        → IsFit g.a
        → IsFit g.b
        → g.a.state ≡ idle
        → g.b.state ≡ idle
        → OnCourse (drive d now g)
    unfolding drive notify
    drive-OnCourse d g fa fb ia ib = elim (Option-cases (blocked g.controls d)) [
      | inl free ↦
          rw (free, drive)
            (round-OnCourse d (plan g.a d now) (plan g.b d now) false
              (notify (record g { controls = set_direction d g.controls }))
              (fa, fb, plan-Tracks d now g.a ia fa, plan-Tracks d now g.b ib fb))
      | inr (_, stuck) ↦
          rw (stuck, drive) (settle-OnCourse (record g { pending = none }) fa fb ia ib)
    ]

    run_command-OnCourse :
        (cmd : GateCommand) (g : Gate)
        → IsFit g.a
        → IsFit g.b
        → g.a.state ≡ idle
        → g.b.state ≡ idle
        → OnCourse (run_command cmd now g)
    unfolding run_command halt
    run_command-OnCourse open_gate g fa fb ia ib = drive-OnCourse opening g fa fb ia ib
    run_command-OnCourse close_gate g fa fb ia ib = drive-OnCourse closing g fa fb ia ib
    run_command-OnCourse stop_gate g fa fb ia ib = finish-OnCourse now false none g fa fb
    run_command-OnCourse press_impulse g fa fb ia ib = finish-OnCourse now false none g fa fb

    pub execute-OnCourse :
        (cmd : GateCommand) (g : Gate)
        → IsFit g.a
        → IsFit g.b
        → g.a.state ≡ idle
        → g.b.state ≡ idle
        → OnCourse (execute cmd now g)
    unfolding execute
    execute-OnCourse cmd g fa fb ia ib =
        run_command-OnCourse (resolve_impulse g.controls cmd) g fa fb ia ib
