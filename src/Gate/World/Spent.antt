-- ===== src/Gate/World/Spent.antt =====
-- gate-core/src/gate.rs: a movement in which a leaf has run, up to its end.
use gate_link.Prelude.{
  ℕ, ◌≡◌, refl, sym, Bool, true, false, ◌&&◌, inl, inr, Option, none, some, Option-cases, List, [],
  ◌∷◌, arith,
}
use mathlib.Core.Path.{subst}
use gate_link.Time.{Ticks}
use gate_link.Motor.{Direction, Motor}
use gate_link.Controls.{GateCommand, blocked}
use gate_link.Gate.{
  settle, Phase, Task, returned, listening, driving, Gate, Turn, a_turn, b_turn, suspend, finish,
  round,
}
use gate_link.Gate.World.{Wake, resume, World, Event, pass, call, wake, happen, run}
use gate_link.Gate.World.Polls.{poll_cases, turns_moved, is_driving, resume-Spent}
use gate_link.Gate.World.Moved.{is_idle, TaskMarked, MarkedGate}

-- The flag is set, if the task is in a movement.
abbrev moved_or_over : Task → Bool
moved_or_over (driving _ _ _ moved _) = moved
moved_or_over _ = true

abbrev MovedOrOver : Gate → Type 0
MovedOrOver g = moved_or_over g.task ≡ true

runs-MovedOrOver :
    (t : Task) (a b : Motor)
    → TaskMarked t a b
    → is_idle a && is_idle b ≡ false
    → moved_or_over t ≡ true
runs-MovedOrOver (driving _ _ _ moved _) a b m h = ground arith
runs-MovedOrOver (returned _) a b m h = refl
runs-MovedOrOver listening a b m h = refl

module _ ⦃ticks : Ticks⦄ where
  -- The gate task is in a movement behind each of the events, so that it is the same movement.
  abbrev pub StaysDriving : List Event → World → Type 0
  StaysDriving [] w = Unit
  StaysDriving (e ∷ es) w =
      (is_driving (happen e w).gate.task ≡ true) × StaysDriving es (happen e w)

  suspend-MovedOrOver :
      (next : Option ℕ) (d : Direction) (now : ℕ) (ta tb : Turn) (g : Gate)
      → tb.moved ≡ true
      → MovedOrOver (suspend next d now ta tb g)
  unfolding suspend finish settle
  suspend-MovedOrOver none d now ta tb g e = refl
  suspend-MovedOrOver (some deadline) d now ta tb g e = e

  finish-MovedOrOver :
      (now : ℕ) (moved : Bool) (p : Option GateCommand) (g : Gate)
      → MovedOrOver (finish now moved p g)
  unfolding finish settle
  finish-MovedOrOver now moved p g = refl

  round-MovedOrOver :
      (d : Direction) (now : ℕ) (a b : Phase) (g : Gate) → MovedOrOver (round d now a b true g)
  unfolding round
  round-MovedOrOver d now a b g = elim (Option-cases (blocked g.controls d)) [
    | inl free ↦
        let ta = a_turn d now a true g in
        let tb = b_turn d now b ta g in
        rw (free, round)
          (suspend-MovedOrOver tb.next_deadline d now ta tb
            (record g { a = ta.motor; b = tb.motor }) (turns_moved d now a b g))
    | inr (_, stuck) ↦ rw (stuck, round) (finish-MovedOrOver now true none g)
  ]

  driving-MovedOrOver :
      (t : Task) (k : Wake) (now : ℕ) (g : Gate)
      → g.task ≡ t
      → moved_or_over t ≡ true
      → is_driving t ≡ true
      → MovedOrOver (resume k now g)
  driving-MovedOrOver (driving d a b true deadline) k now g e m h =
      poll_cases MovedOrOver now d a b true g (λ p g' _. finish-MovedOrOver now true p g')
        (λ g' _. round-MovedOrOver d now a b g') k deadline e
        (λ _. subst (λ t. moved_or_over t ≡ true) (sym e) refl)
  driving-MovedOrOver (driving d a b false deadline) k now g e m h = absurd (ground arith)
  driving-MovedOrOver (returned _) k now g e m h = absurd (ground arith)
  driving-MovedOrOver listening k now g e m h = absurd (ground arith)

  happen-MovedOrOver :
      (e : Event) (w : World)
      → is_driving w.gate.task ≡ true
      → MovedOrOver w.gate
      → MovedOrOver (happen e w).gate
  unfolding happen
  happen-MovedOrOver (pass time) w h m = m
  happen-MovedOrOver (call k) w h m = m
  happen-MovedOrOver (wake k) w h m = driving-MovedOrOver w.gate.task k w.now w.gate refl m h

  run-MovedOrOver :
      (es : List Event) (w : World)
      → is_driving w.gate.task ≡ true
      → StaysDriving es w
      → MovedOrOver w.gate
      → MovedOrOver (run es w).gate × (is_driving (run es w).gate.task ≡ true)
  unfolding run
  run-MovedOrOver [] w h stays m = (m, h)
  run-MovedOrOver (e ∷ es) w h (now_driving, stays) m =
      run-MovedOrOver es (happen e w) now_driving stays (happen-MovedOrOver e w h m)

  moved-Spent :
      (t : Task) (k : Wake) (now : ℕ) (g : Gate)
      → g.task ≡ t
      → moved_or_over t ≡ true
      → is_driving t ≡ true
      → is_driving (resume k now g).task ≡ false
      → (resume k now g).controls.barrier_bypass ≡ false
  moved-Spent (driving d a b true deadline) k now g e m h over = resume-Spent k now g e over
  moved-Spent (driving d a b false deadline) k now g e m h over = absurd (ground arith)
  moved-Spent (returned _) k now g e m h over = absurd (ground arith)
  moved-Spent listening k now g e m h over = absurd (ground arith)

  -- A leaf runs; the movement lasts through some events, and a poll ends it.
  pub run-Spent :
      (w : World) (es : List Event) (k : Wake)
      → MarkedGate w.gate
      → is_idle w.gate.a && is_idle w.gate.b ≡ false
      → is_driving w.gate.task ≡ true
      → StaysDriving es w
      → is_driving (resume k (run es w).now (run es w).gate).task ≡ false
      → (resume k (run es w).now (run es w).gate).controls.barrier_bypass ≡ false
  run-Spent w es k marked runs h stays over =
      let (m, h') =
        run-MovedOrOver es w h stays (runs-MovedOrOver w.gate.task w.gate.a w.gate.b marked runs) in
      moved-Spent (run es w).gate.task k (run es w).now (run es w).gate refl m h' over
