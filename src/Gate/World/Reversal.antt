-- ===== src/Gate/World/Reversal.antt =====
-- An impulse during a movement, and the next one.
use gate_link.Prelude.{ℕ, ◌≡◌, refl, ap, ◌∙◌, Bool, false, Option, none, some}
use gate_link.Time.{Ticks}
use gate_link.Motor.{Direction, opening, closing}
use gate_link.Controls.{
  GateCommand, press_impulse, resolve_impulse, command_for, pos_partial, direction_code,
}
use gate_link.Controls.Blocking.{AtDirection}
use gate_link.Controls.Impulse.{opposite, impulse_when_partial}
use gate_link.Gate.{Phase, driving, Gate, finish}
use gate_link.Gate.World.{command, taken_command, interrupted, resume_at, resume}
use gate_link.Gate.World.Polls.{is_driving}

module _ ⦃ticks : Ticks⦄ where
  interrupted_by_impulse :
      (d : Direction) (now : ℕ) (a b : Phase) (moved : Bool) (g : Gate)
      → interrupted (some press_impulse) d now a b moved g ≡ finish now moved none (taken_command g)
  unfolding interrupted command_for
  interrupted_by_impulse opening now a b moved g = refl
  interrupted_by_impulse closing now a b moved g = refl

  impulse_polled :
      (d : Direction) (now : ℕ) (a b : Phase) (moved : Bool) (deadline : ℕ) (g : Gate)
      → g.task ≡ driving d a b moved deadline
      → g.controls.command ≡ some press_impulse
      → resume command now g ≡ finish now moved none (taken_command g)
  unfolding resume
  impulse_polled d now a b moved deadline g t e =
      ap (λ s. resume_at s command now g) t
      ∙ ap (λ p. interrupted p d now a b moved g) e
      ∙ interrupted_by_impulse d now a b moved g

  finish-last_direction :
      (now : ℕ) (moved : Bool) (p : Option GateCommand) (g : Gate)
      → (finish now moved p g).controls.last_direction ≡ g.controls.last_direction
  unfolding finish
  finish-last_direction now moved p g = refl

  kept : (g : Gate) → (taken_command g).controls.last_direction ≡ g.controls.last_direction
  unfolding taken_command
  kept g = refl

  pub impulse_reverses :
      (d : Direction) (now : ℕ) (a b : Phase) (moved : Bool) (deadline : ℕ) (g : Gate)
      → g.task ≡ driving d a b moved deadline
      → g.controls.command ≡ some press_impulse
      → AtDirection d g.controls
      → (resume command now g).controls.position ≡ pos_partial
      → resolve_impulse (resume command now g).controls press_impulse ≡ command_for (opposite d)
  impulse_reverses d now a b moved deadline g t e at p =
      let polled = impulse_polled d now a b moved deadline g t e in
      let last : (resume command now g).controls.last_direction ≡ direction_code d =
        ap (λ x. x.controls.last_direction) polled
        ∙ finish-last_direction now moved none (taken_command g)
        ∙ kept g
        ∙ at.1 in
      impulse_when_partial d (resume command now g).controls p last

  pub impulse_halts :
      (d : Direction) (now : ℕ) (a b : Phase) (moved : Bool) (deadline : ℕ) (g : Gate)
      → g.task ≡ driving d a b moved deadline
      → g.controls.command ≡ some press_impulse
      → is_driving (resume command now g).task ≡ false
  unfolding finish
  impulse_halts d now a b moved deadline g t e =
      ap (λ x. is_driving x.task) (impulse_polled d now a b moved deadline g t e)
