-- ===== src/Gate/World/Pursuit/Commands.antt =====
-- The pursuit of the wind guard's command through what a command starts.
use gate_link.Prelude.{ℕ, ◌≡◌, ◌⊎◌, ap, sym, false, inl, inr, Option-cases, none, arith}
use mathlib.Core.Path.{subst}
use gate_link.Time.{Ticks}
use gate_link.Motor.{opening, closing, idle, stop}
use gate_link.Controls.{
  Controls, GateCommand, open_gate, close_gate, stop_gate, press_impulse, resolve_impulse, blocked,
  set_direction,
}
use gate_link.Gate.{Gate, notify, settle, halt, drive, plan, run_command, execute}
use gate_link.Gate.Progress.{IsFit, stop_idle_eq}
use gate_link.Gate.Progress.Lateness.{Short, plan-Tracks}
use gate_link.Gate.World.Course.{Settled}
use gate_link.Gate.World.Locked.{closing_blocked}
use gate_link.Gate.World.Pursuit.{
  Wants, Guarded, Pursues, Excuse, settle-Pursues, Wants-Excuse, opening_blocked,
  round_opening-Pursues,
}

module _ ⦃ticks : Ticks⦄ (now : ℕ) (short : Short now) where
  drive_opening-Pursues :
      (g : Gate)
      → Guarded g.controls
      → IsFit g.a
      → IsFit g.b
      → g.a.state ≡ idle
      → g.b.state ≡ idle
      → Pursues (drive opening now g)
  unfolding drive notify set_direction
  drive_opening-Pursues g slot fa fb ia ib = elim (Option-cases (blocked g.controls opening)) [
    | inl free ↦
        rw (free, drive)
          (round_opening-Pursues now short (plan g.a opening now) (plan g.b opening now) false
            (notify (record g { controls = set_direction opening g.controls })) slot
            (fa, fb, plan-Tracks opening now g.a ia fa, plan-Tracks opening now g.b ib fb))
    | inr (r, stuck) ↦
        rw (stuck, drive)
          (settle-Pursues (record g { pending = none }) slot
            (inr (inl (opening_blocked g.controls r stuck))))
  ]

  drive_closing-Pursues :
      (g : Gate)
      → Guarded g.controls
      → Settled g.controls g.a g.b
      → Wants g.controls
      → Pursues (drive closing now g)
  unfolding drive
  drive_closing-Pursues g slot rest w = elim (Option-cases (blocked g.controls closing)) [
    | inl free ↦ absurd (closing_blocked g.controls slot.0 free)
    | inr (r, stuck) ↦
        rw (stuck, drive)
          (settle-Pursues (record g { pending = none }) slot
            (Wants-Excuse g.controls g.a g.b none rest.2 w))
  ]

  halt-Pursues :
      (g : Gate)
      → Guarded g.controls
      → Settled g.controls g.a g.b
      → Wants g.controls
      → Pursues (halt now g)
  unfolding halt settle notify
  halt-Pursues g slot (ia, ib, e) w =
      let sa = stop_idle_eq now g.a ia in
      let sb = stop_idle_eq now g.b ib in
      let stopped : Excuse g.controls (stop now g.a) (stop now g.b) none =
        subst (λ m. Excuse g.controls m (stop now g.b) none) (sym sa)
          (subst (λ m. Excuse g.controls g.a m none) (sym sb)
            (Wants-Excuse g.controls g.a g.b none e w)) in
      settle-Pursues (record g { a = stop now g.a; b = stop now g.b; pending = none }) slot stopped

  run_command-Pursues :
      (cmd : GateCommand) (g : Gate)
      → Guarded g.controls
      → IsFit g.a
      → IsFit g.b
      → Settled g.controls g.a g.b
      → Wants g.controls ⊎ (cmd ≡ open_gate)
      → Pursues (run_command cmd now g)
  unfolding run_command
  run_command-Pursues open_gate g slot fa fb (ia, ib, _) w =
      drive_opening-Pursues g slot fa fb ia ib
  run_command-Pursues close_gate g slot fa fb rest (inl w) = drive_closing-Pursues g slot rest w
  run_command-Pursues close_gate g slot fa fb rest (inr e) = absurd (ground arith)
  run_command-Pursues stop_gate g slot fa fb rest (inl w) = halt-Pursues g slot rest w
  run_command-Pursues stop_gate g slot fa fb rest (inr e) = absurd (ground arith)
  run_command-Pursues press_impulse g slot fa fb rest (inl w) = halt-Pursues g slot rest w
  run_command-Pursues press_impulse g slot fa fb rest (inr e) = absurd (ground arith)

  resolved :
      (c : Controls) (cmd : GateCommand)
      → Wants c ⊎ (cmd ≡ open_gate)
      → Wants c ⊎ (resolve_impulse c cmd ≡ open_gate)
  unfolding resolve_impulse
  resolved c cmd (inl w) = inl w
  resolved c cmd (inr e) = inr (ap (resolve_impulse c) e)

  pub execute-Pursues :
      (cmd : GateCommand) (g : Gate)
      → Guarded g.controls
      → IsFit g.a
      → IsFit g.b
      → Settled g.controls g.a g.b
      → Wants g.controls ⊎ (cmd ≡ open_gate)
      → Pursues (execute cmd now g)
  unfolding execute
  execute-Pursues cmd g slot fa fb rest w =
      run_command-Pursues (resolve_impulse g.controls cmd) g slot fa fb rest
        (resolved g.controls cmd w)
