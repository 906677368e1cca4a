-- ===== src/Gate/World/Refinement.antt =====
-- The gate task as a cover: each stretch of it from one `await` to the next is a path of the cover.
pub mod Runs
use gate_link.Prelude.{
  ℕ, ◌≤◌, ◌≡◌, refl, ap, sym, ◌∙◌, Bool, true, false, leb, if-intro, inl, inr, Option-cases, Option,
  none, some, List, [], ◌∷◌, arith,
}
use mathlib.Core.Path.{subst}
use gate_link.Time.{Ticks}
use gate_link.Motor.{Direction, opening, closing, State, idle, Motor, start, stop}
use gate_link.Motor
use gate_link.Controls.{
  Controls, GateCommand, open_gate, close_gate, stop_gate, press_impulse, resolve_impulse,
  command_for, blocked, set_direction, Call, apply_call,
}
use gate_link.Gate.{
  Phase, waiting, running, done, Task, returned, listening, driving, Gate, Turn, turn, notify,
  settle, halt, finish, suspend, round, drive, plan, run_command, execute, a_turn, b_turn,
}
use gate_link.Gate.Turns.{LeafFits, TurnFits, turn-fits}
use gate_link.Gate.Invariant.{IsSafe, TaskFits, AtRest, plan-LeafFits}
use gate_link.Motor.Relays.{IsSound}
use gate_link.Gate.Progress.{stop_idle_eq}
use gate_link.Gate.Cover.{
  Cover, Further, forbids, Step, begin, advance, rest, Reach, here, next, Reach-trans, last_of,
  moving_of, view, cover_of, last_of-direction_code,
}

-- It is not under way in another direction.
abbrev pub Along : Direction → State → Type 0
Along d idle = Unit
Along d (Motor.running e since) = e ≡ d

Further-refl : (d : Direction) (p : ℕ) → Further d p p
Further-refl opening p = omega arith
Further-refl closing p = omega arith

pub Along-LeafFits : (d : Direction) (p : Phase) (m : Motor) → LeafFits d p m → Along d m.state
Along-LeafFits d (waiting at) m f = ground arith
Along-LeafFits d (running at) m f = ground arith
Along-LeafFits d done m f = ground arith

module _ ⦃ticks : Ticks⦄ where
  stop-Further :
      (d : Direction) (now : ℕ) (m : Motor)
      → m.position ≤ 255
      → Along d m.state
      → Further d m.position (stop now m).position
  unfolding stop Motor.settle Motor.moved_to
  stop-Further opening now m h f = ground arith
  stop-Further closing now m h f = ground arith

  turn-Further :
      (d : Direction) (now : ℕ) (t : Turn)
      → t.motor.position ≤ 255
      → LeafFits d t.phase t.motor
      → Further d t.motor.position (turn d now t).motor.position
  unfolding turn start stop Motor.settle Motor.moved_to
  turn-Further opening now t h f = ground arith
  turn-Further closing now t h f = ground arith

  -- What a movement has at hand: sound leaves that fit their phases.
  abbrev pub Fits : ℕ → Direction → Phase → Phase → Gate → Type 0
  Fits now d a b g = IsSound now g.a × IsSound now g.b × LeafFits d a g.a × LeafFits d b g.b

  -- The end of a movement: it rests.
  pub finish-Reach :
      (d : Direction) (now : ℕ) (moved : Bool) (p : Option GateCommand) (g : Gate)
      → g.a.position ≤ 255
      → g.b.position ≤ 255
      → Along d g.a.state
      → Along d g.b.state
      → Reach (view (some d) g.controls g.a g.b) (cover_of (finish now moved p g))
  unfolding finish settle notify moving_of
  finish-Reach d now moved p g ha hb fa fb = next here (
      rest d (stop now g.a).position (stop now g.b).position refl (stop-Further d now g.a ha fa)
        (stop-Further d now g.b hb fb) refl)

  suspend-Reach :
      (next_deadline : Option ℕ) (d : Direction) (now : ℕ) (ta tb : Turn) (g : Gate)
      → TurnFits d now ta
      → TurnFits d now tb
      → Reach
          (view (some d) g.controls ta.motor tb.motor)
          (cover_of (suspend next_deadline d now ta tb (record g { a = ta.motor; b = tb.motor })))
  unfolding suspend moving_of
  suspend-Reach none d now ta tb g (sa, fa) (sb, fb) =
      finish-Reach d now tb.moved none (record g { a = ta.motor; b = tb.motor }) sa.in_range
        sb.in_range (Along-LeafFits d ta.phase ta.motor fa) (Along-LeafFits d tb.phase tb.motor fb)
  suspend-Reach (some deadline) d now ta tb g fa fb = here

  free_forbids :
      (c : Controls) (d : Direction) → blocked c d ≡ none → forbids c.wind_locked d ≡ false
  unfolding blocked
  free_forbids c opening h = ground arith
  free_forbids c closing h = ground arith

  pub round-Reach :
      (d : Direction) (now : ℕ) (a b : Phase) (moved : Bool) (g : Gate)
      → Fits now d a b g
      → Reach (view (some d) g.controls g.a g.b) (cover_of (round d now a b moved g))
  unfolding round
  round-Reach d now a b moved g (sa, sb, fa, fb) = elim (Option-cases (blocked g.controls d)) [
    | inl free ↦
        let ta = a_turn d now a moved g in
        let tb = b_turn d now b ta g in
        let first : Turn = record { motor = g.a; phase = a; moved = moved; next_deadline = none } in
        let second : Turn = record {
          motor = g.b;
          phase = b;
          moved = ta.moved;
          next_deadline = ta.next_deadline;
        } in
        rw (free, round)
          (Reach-trans
            (next here (
              advance d ta.motor.position tb.motor.position refl (free_forbids g.controls d free)
                (turn-Further d now first sa.in_range fa) (turn-Further d now second sb.in_range fb)
                refl))
            (suspend-Reach tb.next_deadline d now ta tb g (turn-fits d now first (sa, fa))
              (turn-fits d now second (sb, fb))))
    | inr (_, stuck) ↦
        rw (stuck, round)
          (finish-Reach d now moved none g sa.in_range sb.in_range (Along-LeafFits d a g.a fa)
            (Along-LeafFits d b g.b fb))
  ]

  -- What a settled gate has at hand: sound leaves that stand.
  abbrev pub Stands : ℕ → Gate → Type 0
  Stands now g = IsSound now g.a × IsSound now g.b × (g.a.state ≡ idle) × (g.b.state ≡ idle)

  drive-Reach :
      (d : Direction) (now : ℕ) (g : Gate)
      → Stands now g
      → Reach (view none g.controls g.a g.b) (cover_of (drive d now g))
  unfolding drive set_direction notify settle moving_of
  drive-Reach d now g (sa, sb, ia, ib) = elim (Option-cases (blocked g.controls d)) [
    | inl free ↦
        let begun = notify (record g { controls = set_direction d g.controls }) in
        rw (free, drive)
          (Reach-trans
            (next here (
              begin d refl (free_forbids g.controls d free) (
                ap (λ l. record (view (some d) g.controls g.a g.b) { last = l })
                  (last_of-direction_code d))))
            (round-Reach d now (plan g.a d now) (plan g.b d now) false begun
              (sa, sb, plan-LeafFits d now g.a ia, plan-LeafFits d now g.b ib)))
    | inr (_, stuck) ↦ rw (stuck, drive) here
  ]

  halt-Reach :
      (now : ℕ) (g : Gate)
      → Stands now g
      → Reach (view none g.controls g.a g.b) (cover_of (halt now g))
  unfolding halt settle notify moving_of
  halt-Reach now g (sa, sb, ia, ib) =
      let from = view none g.controls g.a g.b in
      subst (λ m. Reach from (view none g.controls m (stop now g.b)))
        (sym (stop_idle_eq now g.a ia))
        (subst (λ m. Reach from (view none g.controls g.a m)) (sym (stop_idle_eq now g.b ib)) here)

  run_command-Reach :
      (cmd : GateCommand) (now : ℕ) (g : Gate)
      → Stands now g
      → Reach (view none g.controls g.a g.b) (cover_of (run_command cmd now g))
  unfolding run_command
  run_command-Reach open_gate now g s = drive-Reach opening now g s
  run_command-Reach close_gate now g s = drive-Reach closing now g s
  run_command-Reach stop_gate now g s = halt-Reach now g s
  run_command-Reach press_impulse now g s = halt-Reach now g s

  pub execute-Reach :
      (cmd : GateCommand) (now : ℕ) (g : Gate)
      → Stands now g
      → Reach (view none g.controls g.a g.b) (cover_of (execute cmd now g))
  unfolding execute
  execute-Reach cmd now g s = run_command-Reach (resolve_impulse g.controls cmd) now g s
