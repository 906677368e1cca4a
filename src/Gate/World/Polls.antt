-- ===== src/Gate/World/Polls.antt =====
-- A poll of the gate task whose future is ready.
use gate_link.Prelude.{
  ℕ, ◌≡◌, refl, sym, ◌∙◌, ◌||◌, not, inl, inr, Option-cases, Bool, true, false, leb, if-intro,
  Option, none, some, arith,
}
use mathlib.Core.Path.{subst}
use gate_link.Time.{Ticks}
use gate_link.Motor.{Direction}
use gate_link.Controls.{Controls, GateCommand, Reason, blocked, command_for}
use gate_link.Controls.Blocking.{is_some}
use gate_link.Gate.{
  suspend, Turn, turn, a_turn, b_turn, Phase, Task, returned, listening, driving, Gate, round,
  finish, notify,
}
use gate_link.Gate.World.{
  Wake, step_called, timer, command, barrier_changed, wind_lock_reset, same_command, taken_command,
  taken_barrier, taken_reset, interrupted, handed_back, resume_at, resume,
}

abbrev pub ready_at_task : Task → Wake → ℕ → Controls → Bool
ready_at_task (returned _) step_called now c = true
ready_at_task listening command now c = is_some c.command
ready_at_task listening wind_lock_reset now c = c.wind_lock_reset
ready_at_task (driving _ _ _ _ deadline) timer now c = leb deadline now
ready_at_task (driving _ _ _ _ _) command now c = is_some c.command
ready_at_task (driving _ _ _ _ _) barrier_changed now c = c.barrier_changed
ready_at_task (driving _ _ _ _ _) wind_lock_reset now c = c.wind_lock_reset
ready_at_task _ _ now c = false

-- The future that a wake names can complete.
abbrev pub is_ready : Wake → ℕ → Gate → Bool
is_ready k now g = ready_at_task g.task k now g.controls

abbrev pub is_driving : Task → Bool
is_driving (driving _ _ _ _ _) = true
is_driving _ = false

module _ ⦃ticks : Ticks⦄ where
  -- A poll in a movement ends it, makes a round of its loop, or, if its future is not ready, does
  -- nothing. A signal that is taken does not change what blocks the movement.
  module _ (P : Gate → Type 0) (now : ℕ) (d : Direction) (a b : Phase) (moved : Bool) (g : Gate)
      (ended : (p : Option GateCommand) (g' : Gate)
        → blocked g'.controls d ≡ blocked g.controls d
        → P (finish now moved p g'))
      (rounded : (g' : Gate)
        → blocked g'.controls d ≡ blocked g.controls d
        → P (round d now a b moved g')) where
    interrupted_cases :
        (p : Option GateCommand) → (is_some p ≡ false → P g) → P (interrupted p d now a b moved g)
    unfolding interrupted blocked
    interrupted_cases none stay = stay refl
    interrupted_cases (some cmd) stay =
        if-intro P (same_command cmd (command_for d)) (λ _. rounded (taken_command g) refl)
          (λ _. ended (handed_back cmd) (taken_command g) refl)

    driving_cases :
        (k : Wake) (deadline : ℕ)
        → (ready_at_task (driving d a b moved deadline) k now g.controls ≡ false → P g)
        → P (resume_at (driving d a b moved deadline) k now g)
    unfolding resume_at blocked
    driving_cases step_called deadline stay = stay refl
    driving_cases timer deadline stay = if-intro P (leb deadline now) (λ _. rounded g refl) stay
    driving_cases command deadline stay = interrupted_cases g.controls.command stay
    driving_cases barrier_changed deadline stay =
        if-intro P g.controls.barrier_changed (λ _. rounded (taken_barrier g) refl) stay
    driving_cases wind_lock_reset deadline stay =
        if-intro P g.controls.wind_lock_reset (λ _. rounded (notify (taken_reset g)) refl) stay

    pub poll_cases :
        (k : Wake) (deadline : ℕ)
        → g.task ≡ driving d a b moved deadline
        → (is_ready k now g ≡ false → P g)
        → P (resume k now g)
    unfolding resume
    poll_cases k deadline t stay =
        subst (λ s. P (resume_at s k now g)) (sym t)
          (driving_cases k deadline
            (λ h. stay (subst (λ s. ready_at_task s k now g.controls ≡ false) (sym t) h)))

  abbrev Halts : Gate → Type 0
  Halts g = is_driving g.task ≡ false

  finish-Halts :
      (now : ℕ) (moved : Bool) (p : Option GateCommand) (g : Gate) → Halts (finish now moved p g)
  unfolding finish
  finish-Halts now moved p g = refl

  round-Halts :
      (d : Direction) (now : ℕ) (a b : Phase) (moved : Bool) (g : Gate) {r : Reason}
      → blocked g.controls d ≡ some r
      → Halts (round d now a b moved g)
  unfolding round
  round-Halts d now a b moved g e = rw (e, round) (finish-Halts now moved none g)

  -- A blocked movement is over after any poll that has a future ready.
  pub resume-Halts :
      (k : Wake) (now : ℕ) (g : Gate) {d : Direction} {a b : Phase} {moved : Bool} {deadline : ℕ}
      {r : Reason}
      → g.task ≡ driving d a b moved deadline
      → is_ready k now g ≡ true
      → blocked g.controls d ≡ some r
      → is_driving (resume k now g).task ≡ false
  resume-Halts k now g {d} {a} {b} {moved} {deadline} t h e =
      poll_cases Halts now d a b moved g (λ p g' _. finish-Halts now moved p g')
        (λ g' same. round-Halts d now a b moved g' (same ∙ e)) k deadline t (λ n. cc)

  -- The bypass is off once the movement is over.
  abbrev Spent : Gate → Type 0
  Spent g = is_driving g.task || not g.controls.barrier_bypass ≡ true

  pub turn-moved :
      (d : Direction) (now : ℕ) (t : Turn) → t.moved ≡ true → (turn d now t).moved ≡ true
  unfolding turn
  turn-moved d now t e = ground arith

  finish-Spent : (now : ℕ) (p : Option GateCommand) (g : Gate) → Spent (finish now true p g)
  unfolding finish
  finish-Spent now p g = refl

  suspend-Spent :
      (next : Option ℕ) (d : Direction) (now : ℕ) (ta tb : Turn) (g : Gate)
      → tb.moved ≡ true
      → Spent (suspend next d now ta tb g)
  unfolding suspend
  suspend-Spent none d now ta tb g e = rw e (finish-Spent now none g)
  suspend-Spent (some deadline) d now ta tb g e = refl

  -- Both turns of a round keep the flag.
  pub turns_moved :
      (d : Direction) (now : ℕ) (a b : Phase) (g : Gate)
      → (b_turn d now b (a_turn d now a true g) g).moved ≡ true
  turns_moved d now a b g =
      let ta = a_turn d now a true g in
      let a_moved : ta.moved ≡ true =
        turn-moved d now (record { motor = g.a; phase = a; moved = true; next_deadline = none })
          refl in
      turn-moved d now
        (record { motor = g.b; phase = b; moved = ta.moved; next_deadline = ta.next_deadline })
        a_moved

  round-Spent : (d : Direction) (now : ℕ) (a b : Phase) (g : Gate) → Spent (round d now a b true g)
  unfolding round
  round-Spent d now a b g = elim (Option-cases (blocked g.controls d)) [
    | inl free ↦
        let ta = a_turn d now a true g in
        let tb = b_turn d now b ta g in
        rw (free, round)
          (suspend-Spent tb.next_deadline d now ta tb (record g { a = ta.motor; b = tb.motor })
            (turns_moved d now a b g))
    | inr (_, stuck) ↦ rw (stuck, round) (finish-Spent now none g)
  ]

  pub resume-Spent :
      (k : Wake) (now : ℕ) (g : Gate) {d : Direction} {a b : Phase} {deadline : ℕ}
      → g.task ≡ driving d a b true deadline
      → is_driving (resume k now g).task ≡ false
      → (resume k now g).controls.barrier_bypass ≡ false
  resume-Spent k now g {d} {a} {b} {deadline} t over =
      let during : Spent g =
        subst (λ s. is_driving s || not g.controls.barrier_bypass ≡ true) (sym t) refl in
      let spent : Spent (resume k now g) =
        poll_cases Spent now d a b true g (λ p g' _. finish-Spent now p g')
          (λ g' _. round-Spent d now a b g') k deadline t (λ _. during) in
      ground arith
