-- ===== src/Gate/World/Pursuit.antt =====
-- The wind guard's open command while the wind lock is engaged: where it is kept until the gate is
-- open.
pub mod Commands
pub mod Polls
pub mod Runs
use gate_link.Prelude.{
  ℕ, ◌≡◌, ◌≢◌, ◌⊎◌, refl, ap, sym, ◌∙◌, Bool, true, false, inl, inr, Option-cases, Option, none,
  some, arith,
}
use mathlib.Core.Path.{subst}
use gate_link.Time.{Ticks}
use gate_link.Motor.{Direction, opening, closing, idle, Motor, stop}
use gate_link.Controls.{
  Controls, GateCommand, open_gate, close_gate, stop_gate, press_impulse, resolve_impulse, blocked,
  set_direction, pos_open, Reason,
}
use gate_link.Gate
use gate_link.Gate.{
  Phase, done, Task, returned, listening, driving, Gate, Turn, notify, classify, settle, halt,
  finish, suspend, round, drive, plan, run_command, execute, a_turn, b_turn,
}
use gate_link.Gate.Deadlines.{both_done, join_deadlines}
use gate_link.Gate.Progress.{IsFit, stop_idle_eq}
use gate_link.Gate.Progress.Lateness.{Short, Tracks, KeepsTrack, plan-Tracks}
use gate_link.Gate.World.Course.{Settled, OnTheWay, round_turns}
use gate_link.Gate.World.Locked.{closing_blocked}

-- The command is in the slot, or light barrier 1 is broken, or the gate is open already.
abbrev pub Wants : Controls → Type 0
Wants c = (c.command ≡ some open_gate) ⊎ ((c.barrier1_active ≡ true) ⊎ (c.position ≡ pos_open))

-- The lock is engaged, and no other command is in the slot.
abbrev pub Guarded : Controls → Type 0
Guarded c = (c.wind_locked ≡ true) × ((c.command ≡ none) ⊎ (c.command ≡ some open_gate))

abbrev pub Pursuit : Task → Controls → Option GateCommand → Type 0
Pursuit (returned _) c p = Wants c ⊎ (p ≡ some open_gate)
Pursuit listening c p = Wants c
Pursuit (driving opening _ _ _ _) c p = Unit
Pursuit (driving closing _ _ _ _) c p = c.command ≡ some open_gate

abbrev pub Pursues : Gate → Type 0
Pursues g = Guarded g.controls × Pursuit g.task g.controls g.pending

-- What must hold for a settled gate to pursue it.
abbrev pub Excuse : Controls → Motor → Motor → Option GateCommand → Type 0
Excuse c a b p =
    (c.command ≡ some open_gate)
    ⊎ ((c.barrier1_active ≡ true)
        ⊎ ((classify a.position b.position ≡ pos_open) ⊎ (p ≡ some open_gate)))

-- What a settled gate that wants the command is excused by.
pub Wants-Excuse :
    (c : Controls) (a b : Motor) (p : Option GateCommand)
    → c.position ≡ classify a.position b.position
    → Wants c
    → Excuse c a b p
Wants-Excuse c a b p e w = ground arith

pub settle-Pursues :
    (g : Gate) → Guarded g.controls → Excuse g.controls g.a g.b g.pending → Pursues (settle g)
unfolding settle notify
settle-Pursues g slot e = ground arith

-- A lock that is restored has the command pending.
pub new-Pursues : (c : Controls) (a b : Motor) → c.command ≡ none → Pursues (Gate.new c a b true)
unfolding Gate.new settle notify
new-Pursues c a b h = ((refl, inl h), inr refl)

pub opening_blocked :
    (c : Controls) (r : Reason) → blocked c opening ≡ some r → c.barrier1_active ≡ true
unfolding blocked
opening_blocked c r h = ground arith

module _ ⦃ticks : Ticks⦄ where
  pub finish-Pursues :
      (now : ℕ) (moved : Bool) (p : Option GateCommand) (g : Gate)
      → Guarded g.controls
      → Excuse g.controls (stop now g.a) (stop now g.b) p
      → Pursues (finish now moved p g)
  unfolding finish settle notify
  finish-Pursues now moved p g slot e = ground arith

  -- Both leaves are done: the gate is open.
  done-open :
      (now : ℕ) (a b : Motor) (pa pb : Phase)
      → Tracks opening pa a
      → Tracks opening pb b
      → pa ≡ done
      → pb ≡ done
      → classify (stop now a).position (stop now b).position ≡ pos_open
  unfolding classify
  done-open now a b pa pb ta tb ea eb =
      let (ia, xa) = subst (λ p. Tracks opening p a) ea ta in
      let (ib, xb) = subst (λ p. Tracks opening p b) eb tb in
      let sa : (stop now a).position ≡ 255 = ap (λ m. m.position) (stop_idle_eq now a ia) ∙ xa in
      let sb : (stop now b).position ≡ 255 = ap (λ m. m.position) (stop_idle_eq now b ib) ∙ xb in
      ground arith

  suspend-Pursues :
      (next : Option ℕ) (now : ℕ) (ta tb : Turn) (g : Gate)
      → Guarded g.controls
      → (next ≡ none → classify (stop now g.a).position (stop now g.b).position ≡ pos_open)
      → Pursues (suspend next opening now ta tb g)
  unfolding suspend
  suspend-Pursues none now ta tb g slot over =
      finish-Pursues now tb.moved none g slot (inr (inr (inl (over refl))))
  suspend-Pursues (some deadline) now ta tb g slot over = (slot, tt)

  module _ (now : ℕ) (short : Short now) where
    pub round_opening-Pursues :
        (a b : Phase) (moved : Bool) (g : Gate)
        → Guarded g.controls
        → OnTheWay now short opening a b g
        → Pursues (round opening now a b moved g)
    unfolding round
    round_opening-Pursues a b moved g slot way = elim (Option-cases (blocked g.controls opening)) [
      | inl free ↦
          let ta = a_turn opening now a moved g in
          let tb = b_turn opening now b ta g in
          let (ka, kb) = round_turns now short opening a b moved g way in
          rw (free, round)
            (suspend-Pursues tb.next_deadline now ta tb (record g { a = ta.motor; b = tb.motor })
              slot
              (λ (over : tb.next_deadline ≡ none).
                let (da, db) =
                  both_done ta.phase tb.phase
                    (sym over ∙ join_deadlines ta.phase tb.phase ka.deadline kb.deadline) in
                done-open now ta.motor tb.motor ta.phase tb.phase ka.tracks kb.tracks da db))
      | inr (r, stuck) ↦
          rw (stuck, round)
            (finish-Pursues now moved none g slot (inr (inl (opening_blocked g.controls r stuck))))
    ]

    -- The lock blocks closing.
    pub round_closing-Pursues :
        (a b : Phase) (moved : Bool) (g : Gate)
        → g.controls.wind_locked ≡ true
        → g.controls.command ≡ some open_gate
        → Pursues (round closing now a b moved g)
    unfolding round
    round_closing-Pursues a b moved g h slot = elim (Option-cases (blocked g.controls closing)) [
      | inl free ↦ absurd (closing_blocked g.controls h free)
      | inr (r, stuck) ↦
          rw (stuck, round) (finish-Pursues now moved none g (h, inr slot) (inl slot))
    ]
