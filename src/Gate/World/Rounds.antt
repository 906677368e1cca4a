-- ===== src/Gate/World/Rounds.antt =====
-- What a round of the loop of `drive` leaves of a movement that may go on.
use gate_link.Prelude.{
  if◌then◌else◌, ℕ, suc, ◌+◌, ◌≤◌, ◌≡◌, ◌⊎◌, inl, inr, refl, ap, ◌∙◌, Bool, false, Option, none,
  some, arith,
}
use mathlib.Core.Path.{subst}
use gate_link.Time.{Ticks}
use gate_link.Motor.{Direction, opening, closing, idle, stop}
use gate_link.Motor.Travel.{end_of}
use gate_link.Controls.{Controls, CoverState, dir_idle, is_open, is_closed, blocked, cover_state}
use gate_link.Gate.{Phase, done, returned, driving, Gate, Turn, finish, suspend, round, classify}
use gate_link.Gate.Deadlines.{rank, due, with_deadline, both_done, join_deadlines}
use gate_link.Gate.Progress.{Going, IsFit, turn-Advances, stop_idle_eq}

abbrev pub end_cover : Direction → CoverState
end_cover opening = is_open
end_cover closing = is_closed

module _ ⦃ticks : Ticks⦄ where
  -- Both leaves are at the end, and the movement is over with nothing left to do.
  pub record Arrived (d : Direction) (g : Gate) : Type 0 where
    pub a_at_end : g.a.position ≡ end_of d
    pub b_at_end : g.b.position ≡ end_of d
    pub a_idle : g.a.state ≡ idle
    pub b_idle : g.b.state ≡ idle
    pub over :
        g.task
        ≡ returned (record {
          leaf_a_position = end_of d;
          leaf_b_position = end_of d;
          wind_locked = g.controls.wind_locked;
        })
    pub cover : cover_state g.controls ≡ end_cover d
    pub nothing_pending : g.pending ≡ none

  -- A movement under way, with `turns` turns to make.
  pub record Moves (d : Direction) (now turns : ℕ) (g : Gate) : Type 0 where
    pub a_phase : Phase
    pub b_phase : Phase
    pub moved : Bool
    pub deadline : ℕ
    pub suspended : g.task ≡ driving d a_phase b_phase moved deadline
    pub a_going : Going d (suc now) a_phase g.a
    pub b_going : Going d (suc now) b_phase g.b
    pub a_fit : IsFit g.a
    pub b_fit : IsFit g.b
    pub free : blocked g.controls d ≡ none
    pub first : some deadline ≡ with_deadline (with_deadline none a_phase) b_phase
    pub few : rank a_phase + rank b_phase ≤ turns

  settled_cover :
      (d : Direction) (a b : ℕ) (c : Controls)
      → a ≡ end_of d
      → b ≡ end_of d
      → cover_state (record c { current_direction = dir_idle; position = classify a b })
        ≡ end_cover d
  unfolding cover_state classify
  settled_cover opening a b c ea eb = ground arith
  settled_cover closing a b c ea eb = ground arith

  finish-Arrived :
      (d : Direction) (now : ℕ) (moved : Bool) (g : Gate)
      → g.a.state ≡ idle
      → g.b.state ≡ idle
      → g.a.position ≡ end_of d
      → g.b.position ≡ end_of d
      → Arrived d (finish now moved none g)
  unfolding finish
  finish-Arrived d now moved g ia ib ea eb =
      let c = g.controls in
      let a_same = stop_idle_eq now g.a ia in
      let b_same = stop_idle_eq now g.b ib in
      let at_a : (stop now g.a).position ≡ end_of d = ap (λ m. m.position) a_same ∙ ea in
      let at_b : (stop now g.b).position ≡ end_of d = ap (λ m. m.position) b_same ∙ eb in
      record {
        a_at_end = at_a;
        b_at_end = at_b;
        a_idle = ap (λ m. m.state) a_same ∙ ia;
        b_idle = ap (λ m. m.state) b_same ∙ ib;
        over = ground (arith, at_a, at_b);
        cover =
            settled_cover d _ _
              (record c { barrier_bypass = if moved then false else c.barrier_bypass }) at_a at_b;
        nothing_pending = refl;
      }

  -- What a round leaves behind: the movement is over, or has fewer turns to make.
  abbrev pub Outcome : Direction → ℕ → ℕ → Gate → Type 0
  Outcome d now turns g = Arrived d g ⊎ Moves d now turns g

  suspend-Outcome :
      (next : Option ℕ) (d : Direction) (now turns : ℕ) (ta tb : Turn) (g : Gate)
      → Going d (suc now) ta.phase ta.motor
      → Going d (suc now) tb.phase tb.motor
      → IsFit ta.motor
      → IsFit tb.motor
      → next ≡ with_deadline (with_deadline none ta.phase) tb.phase
      → blocked g.controls d ≡ none
      → rank ta.phase + rank tb.phase ≤ turns
      → Outcome d now turns (suspend next d now ta tb (record g { a = ta.motor; b = tb.motor }))
  unfolding suspend
  suspend-Outcome none d now turns ta tb g ga gb fa fb e free few =
      let over = both_done ta.phase tb.phase e in
      let end_a : Going d (suc now) done ta.motor =
        subst (λ p. Going d (suc now) p ta.motor) over.0 ga in
      let end_b : Going d (suc now) done tb.motor =
        subst (λ p. Going d (suc now) p tb.motor) over.1 gb in
      inl (
        finish-Arrived d now tb.moved (record g { a = ta.motor; b = tb.motor }) end_a.0 end_b.0
          end_a.1 end_b.1)
  suspend-Outcome (some deadline) d now turns ta tb g ga gb fa fb e free few = inr (record {
    a_phase = ta.phase;
    b_phase = tb.phase;
    moved = tb.moved;
    deadline = deadline;
    suspended = refl;
    a_going = ga;
    b_going = gb;
    a_fit = fa;
    b_fit = fb;
    free = free;
    first = e;
    few = few;
  })

  pub round-Outcome :
      (d : Direction) (now turns : ℕ) (a_phase b_phase : Phase) (moved : Bool) (g : Gate)
      → Going d now a_phase g.a
      → Going d now b_phase g.b
      → IsFit g.a
      → IsFit g.b
      → blocked g.controls d ≡ none
      → rank a_phase + rank b_phase ≤ turns + due a_phase now + due b_phase now
      → Outcome d now turns (round d now a_phase b_phase moved g)
  unfolding round
  round-Outcome d now turns a_phase b_phase moved g ga gb fa fb free few =
      let ta = turn-Advances d now a_phase g.a moved none ga fa in
      let tb = turn-Advances d now b_phase g.b _ _ gb fb in
      rw (free, round)
        (suspend-Outcome _ d now turns _ _ g ta.going tb.going ta.fit tb.fit
          (join_deadlines _ _ ta.deadline tb.deadline) free (omega (arith, ta.nearer, tb.nearer)))
