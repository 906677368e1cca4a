-- ===== src/Gate/World/Storm.antt =====
-- The gate task when the wind guard trips while the gate closes.
use gate_link.Prelude.{
  ℕ, ◌≡◌, refl, ap, ◌∙◌, Bool, false, inl, inr, Option-cases, Option, none, some, arith,
}
use gate_link.Time.{Ticks}
use gate_link.Motor.{Direction, opening, closing}
use gate_link.Controls.{
  open_gate, command_for, dir_opening, set_direction, wind_trigger, blocked, resolve_impulse,
}
use gate_link.Gate.{
  Phase, driving, Gate, Turn, finish, settle, suspend, round, drive, plan, notify, execute,
  run_command, a_turn, b_turn,
}
use gate_link.Gate.World.{
  command, step_called, taken_command, interrupted, begin_step, resume_at, resume,
}
use gate_link.Gate.World.Polls.{is_driving}

abbrev pub stormy : Gate → Gate
stormy g = record g { controls = wind_trigger g.controls }

module _ ⦃ticks : Ticks⦄ where
  -- The gate behind the poll that takes the open command of the wind guard.
  turned : ℕ → Bool → Gate → Gate
  turned now moved g = finish now moved (some open_gate) (taken_command (stormy g))

  storm_polled :
      (now : ℕ) (a b : Phase) (moved : Bool) (deadline : ℕ) (g : Gate)
      → g.task ≡ driving closing a b moved deadline
      → resume command now (stormy g) ≡ turned now moved g
  unfolding resume resume_at interrupted command_for wind_trigger turned
  storm_polled now a b moved deadline g t = ap (λ s. resume_at s command now (stormy g)) t

  turned_steps :
      (now later : ℕ) (moved : Bool) (g : Gate)
      → resume step_called later (turned now moved g)
        ≡ drive opening later (record (turned now moved g) { pending = none })
  unfolding resume resume_at turned finish settle begin_step execute resolve_impulse run_command
  turned_steps now later moved g = refl

  -- An opening movement that is begun is remembered as the last direction.
  Opens : Gate → Type 0
  Opens g = g.controls.last_direction ≡ dir_opening

  finish-Opens : (now : ℕ) (moved : Bool) (g : Gate) → Opens g → Opens (finish now moved none g)
  unfolding finish Opens
  finish-Opens now moved g h = h

  suspend-Opens :
      (next : Option ℕ) (d : Direction) (now : ℕ) (ta tb : Turn) (g : Gate)
      → Opens g
      → Opens (suspend next d now ta tb g)
  unfolding suspend Opens
  suspend-Opens none d now ta tb g h = finish-Opens now tb.moved g h
  suspend-Opens (some deadline) d now ta tb g h = h

  round-Opens :
      (d : Direction) (now : ℕ) (a b : Phase) (moved : Bool) (g : Gate)
      → Opens g
      → Opens (round d now a b moved g)
  unfolding round Opens
  round-Opens d now a b moved g h = elim (Option-cases (blocked g.controls d)) [
    | inl free ↦
        let ta = a_turn d now a moved g in
        let tb = b_turn d now b ta g in
        rw (free, round)
          (suspend-Opens tb.next_deadline d now ta tb (record g { a = ta.motor; b = tb.motor }) h)
    | inr (_, stuck) ↦ rw (stuck, round) (finish-Opens now moved g h)
  ]

  drive-Opens :
      (now : ℕ) (g : Gate) → blocked g.controls opening ≡ none → Opens (drive opening now g)
  unfolding drive Opens set_direction
  drive-Opens now g free =
      rw (free, drive)
        (round-Opens opening now (plan g.a opening now) (plan g.b opening now) false
          (notify (record g { controls = set_direction opening g.controls })) refl)

  turned-free :
      (now : ℕ) (moved : Bool) (g : Gate)
      → g.controls.barrier1_active ≡ false
      → blocked (turned now moved g).controls opening ≡ none
  unfolding turned finish blocked wind_trigger taken_command
  turned-free now moved g h = ground arith

  pub storm_reverses :
      (now later : ℕ) (a b : Phase) (moved : Bool) (deadline : ℕ) (g : Gate)
      → g.task ≡ driving closing a b moved deadline
      → g.controls.barrier1_active ≡ false
      → (is_driving (resume command now (stormy g)).task ≡ false)
        × ((resume step_called later (resume command now (stormy g))).controls.last_direction
            ≡ dir_opening)
  unfolding Opens turned finish
  storm_reverses now later a b moved deadline g t free =
      let polled = storm_polled now a b moved deadline g t in
      (
        ap (λ x. is_driving x.task) polled,
        ap (λ x. (resume step_called later x).controls.last_direction) polled
            ∙ ap (λ x. x.controls.last_direction) (turned_steps now later moved g)
            ∙ drive-Opens later (record (turned now moved g) { pending = none })
                (turned-free now moved g free),
      )
