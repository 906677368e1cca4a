-- ===== src/Gate/World/Moved.antt =====
-- gate-core/src/gate.rs: the flag `moved` of `drive`, and whether a leaf runs.
use gate_link.Prelude.{
  ℕ, ◌≡◌, refl, Bool, true, false, ◌||◌, ◌&&◌, inl, inr, Option, none, some, Option-cases, List, [],
  ◌∷◌, if-intro, leb, arith,
}
use gate_link.Time.{Ticks}
use gate_link.Motor.{Direction, opening, closing, State, idle, running, Motor, start, stop}
use gate_link.Motor
use gate_link.Controls.{
  GateCommand, open_gate, close_gate, stop_gate, press_impulse, blocked, resolve_impulse,
  set_direction, command_for,
}
use gate_link.Gate.{
  settle, Phase, Task, returned, listening, driving, Gate, Turn, turn, a_turn, b_turn, suspend,
  finish, round, plan, notify, drive, run_command, execute,
}
use gate_link.Gate.Invariant.{AtRest, TaskFits}
use gate_link.Gate.World.{
  Wake, step_called, timer, command, barrier_changed, wind_lock_reset, taken_command, taken_reset,
  taken_barrier, begin_step, heard, interrupted, same_command, handed_back, resume_at, resume,
  World, Event, pass, call, wake, happen, run,
}
use gate_link.Gate.World.Polls.{turn-moved}
use gate_link.Gate.World.Safety.{IsSafeWorld, happen-IsSafe}

abbrev pub is_idle : Motor → Bool
is_idle m = elim m.state [ idle ↦ true | running _ _ ↦ false ]

-- As long as `moved` is not set, no leaf runs.
abbrev pub Marked : Bool → Motor → Motor → Type 0
Marked moved a b = moved || (is_idle a && is_idle b) ≡ true

abbrev pub TaskMarked : Task → Motor → Motor → Type 0
TaskMarked (driving _ _ _ moved _) a b = Marked moved a b
TaskMarked _ a b = Unit

abbrev pub MarkedGate : Gate → Type 0
MarkedGate g = TaskMarked g.task g.a g.b

kept_marked :
    (moved later a b : Bool)
    → moved || (a && b) ≡ true
    → (moved ≡ true → later ≡ true)
    → later || b ≡ true
kept_marked true later a b m keeps = ground (arith, keeps refl)
kept_marked false later true true m keeps = ground arith
kept_marked false later true false m keeps = absurd (ground arith)
kept_marked false later false b m keeps = absurd (ground arith)

both_marked :
    (first second a b : Bool)
    → first || a ≡ true
    → second || b ≡ true
    → (first ≡ true → second ≡ true)
    → second || (a && b) ≡ true
both_marked true second a b ma mb keeps = ground (arith, keeps refl)
both_marked false true a b ma mb keeps = refl
both_marked false false true b ma mb keeps = mb
both_marked false false false b ma mb keeps = absurd (ground arith)

settle-Marked : (g : Gate) → MarkedGate (settle g)
unfolding settle
settle-Marked g = tt

module _ ⦃ticks : Ticks⦄ where
  finish-Marked :
      (now : ℕ) (moved : Bool) (p : Option GateCommand) (g : Gate)
      → MarkedGate (finish now moved p g)
  unfolding finish
  finish-Marked now moved p g = tt

  suspend-Marked :
      (next : Option ℕ) (d : Direction) (now : ℕ) (ta tb : Turn) (g : Gate)
      → Marked tb.moved g.a g.b
      → MarkedGate (suspend next d now ta tb g)
  unfolding suspend
  suspend-Marked none d now ta tb g m = finish-Marked now tb.moved none g
  suspend-Marked (some deadline) d now ta tb g m = m

  turn-Marked :
      (d : Direction) (now : ℕ) (t : Turn)
      → t.moved || is_idle t.motor ≡ true
      → (turn d now t).moved || is_idle (turn d now t).motor ≡ true
  unfolding turn start stop Motor.settle
  turn-Marked d now t h = ground arith

  round-Marked :
      (d : Direction) (now : ℕ) (a b : Phase) (moved : Bool) (g : Gate)
      → Marked moved g.a g.b
      → MarkedGate (round d now a b moved g)
  unfolding round
  round-Marked d now a b moved g m = elim (Option-cases (blocked g.controls d)) [
    | inl free ↦
        let ta = a_turn d now a moved g in
        let tb = b_turn d now b ta g in
        let start_a : Turn = record {
          motor = g.a;
          phase = a;
          moved = moved;
          next_deadline = none;
        } in
        let start_b : Turn = record {
          motor = g.b;
          phase = b;
          moved = ta.moved;
          next_deadline = ta.next_deadline;
        } in
        let a_marked : ta.moved || is_idle ta.motor ≡ true =
          turn-Marked d now start_a (ground (arith, m)) in
        let b_marked : tb.moved || is_idle tb.motor ≡ true =
          turn-Marked d now start_b
            (kept_marked moved ta.moved (is_idle g.a) (is_idle g.b) m (turn-moved d now start_a)) in
        rw (free, round)
          (suspend-Marked tb.next_deadline d now ta tb (record g { a = ta.motor; b = tb.motor })
            (both_marked ta.moved tb.moved (is_idle ta.motor) (is_idle tb.motor) a_marked b_marked
              (turn-moved d now start_b)))
    | inr (_, stuck) ↦ rw (stuck, round) (finish-Marked now moved none g)
  ]

  drive-Marked :
      (d : Direction) (now : ℕ) (g : Gate)
      → g.a.state ≡ idle
      → g.b.state ≡ idle
      → MarkedGate (drive d now g)
  unfolding drive
  drive-Marked d now g ia ib = elim (Option-cases (blocked g.controls d)) [
    | inl free ↦
        rw (free, drive)
          (round-Marked d now (plan g.a d now) (plan g.b d now) false
            (notify (record g { controls = set_direction d g.controls })) (ground (arith, ia, ib)))
    | inr (_, stuck) ↦ rw (stuck, drive) (settle-Marked (record g { pending = none }))
  ]

  run_command-Marked :
      (cmd : GateCommand) (now : ℕ) (g : Gate)
      → g.a.state ≡ idle
      → g.b.state ≡ idle
      → MarkedGate (run_command cmd now g)
  unfolding execute
  run_command-Marked open_gate now g ia ib = drive-Marked opening now g ia ib
  run_command-Marked close_gate now g ia ib = drive-Marked closing now g ia ib
  run_command-Marked stop_gate now g ia ib = finish-Marked now false none g
  run_command-Marked press_impulse now g ia ib = finish-Marked now false none g

  pub execute-Marked :
      (cmd : GateCommand) (now : ℕ) (g : Gate)
      → g.a.state ≡ idle
      → g.b.state ≡ idle
      → MarkedGate (execute cmd now g)
  unfolding execute
  execute-Marked cmd now g ia ib = run_command-Marked (resolve_impulse g.controls cmd) now g ia ib

  begin_step-Marked :
      (p : Option GateCommand) (now : ℕ) (g : Gate)
      → AtRest g.controls g.a g.b
      → MarkedGate (begin_step p now g)
  unfolding begin_step
  begin_step-Marked (some cmd) now g (ia, ib, c) =
      execute-Marked cmd now (record g { pending = none }) ia ib
  begin_step-Marked none now g rest = tt

  heard-Marked :
      (p : Option GateCommand) (now : ℕ) (g : Gate)
      → AtRest g.controls g.a g.b
      → MarkedGate g
      → MarkedGate (heard p now g)
  unfolding heard
  heard-Marked (some cmd) now g (ia, ib, c) m = execute-Marked cmd now (taken_command g) ia ib
  heard-Marked none now g rest m = m

  interrupted-Marked :
      (p : Option GateCommand) (d : Direction) (now : ℕ) (a b : Phase) (moved : Bool) (g : Gate)
      → Marked moved g.a g.b
      → MarkedGate g
      → MarkedGate (interrupted p d now a b moved g)
  unfolding interrupted
  interrupted-Marked none d now a b moved g m s = s
  interrupted-Marked (some cmd) d now a b moved g m s =
      let g' = taken_command g in
      if-intro MarkedGate (same_command cmd (command_for d))
        (λ _. round-Marked d now a b moved g' m) (λ _. finish-Marked now moved (handed_back cmd) g')

  resume_at-Marked :
      (t : Task) (k : Wake) (now : ℕ) (g : Gate)
      → TaskFits t g.controls g.a g.b
      → TaskMarked t g.a g.b
      → MarkedGate g
      → MarkedGate (resume_at t k now g)
  unfolding resume_at
  resume_at-Marked (returned _) step_called now g f m s = begin_step-Marked g.pending now g f
  resume_at-Marked listening command now g f m s = heard-Marked g.controls.command now g f s
  resume_at-Marked listening wind_lock_reset now g f m s =
      if-intro MarkedGate g.controls.wind_lock_reset (λ _. settle-Marked (taken_reset g)) (λ _. s)
  resume_at-Marked (driving d a b moved deadline) timer now g f m s =
      if-intro MarkedGate (leb deadline now) (λ _. round-Marked d now a b moved g m) (λ _. s)
  resume_at-Marked (driving d a b moved deadline) command now g f m s =
      interrupted-Marked g.controls.command d now a b moved g m s
  resume_at-Marked (driving d a b moved deadline) barrier_changed now g f m s =
      if-intro MarkedGate g.controls.barrier_changed
        (λ _. round-Marked d now a b moved (taken_barrier g) m) (λ _. s)
  resume_at-Marked (driving d a b moved deadline) wind_lock_reset now g f m s =
      if-intro MarkedGate g.controls.wind_lock_reset
        (λ _. round-Marked d now a b moved (notify (taken_reset g)) m) (λ _. s)
  resume_at-Marked _ _ now g f m s = s

  happen-Marked :
      (e : Event) (w : World) → IsSafeWorld w → MarkedGate w.gate → MarkedGate (happen e w).gate
  unfolding happen resume
  happen-Marked (pass time) w s m = m
  happen-Marked (call k) w s m = m
  happen-Marked (wake k) w s m = resume_at-Marked w.gate.task k w.now w.gate s.fits m m

  pub run-Marked :
      (es : List Event) (w : World) → IsSafeWorld w → MarkedGate w.gate → MarkedGate (run es w).gate
  unfolding run
  run-Marked [] w s m = m
  run-Marked (e ∷ es) w s m =
      run-Marked es (happen e w) (happen-IsSafe e w s) (happen-Marked e w s m)
