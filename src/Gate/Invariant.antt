-- ===== src/Gate/Invariant.antt =====
-- What holds of the gate whenever its task waits, and that a run from one `await` to the next
-- keeps it.
use gate_link.Prelude.{ℕ, ◌≡◌, refl, inl, inr, Bool, false, Option, none, some, arith, Option-cases}
use gate_link.Time.{Ticks}
use gate_link.Motor.{Direction, opening, closing, idle, Motor, run_time}
use gate_link.Motor.Relays.{IsSound, stop-IsSound, stop-idle}
use gate_link.Controls.{
  Controls, GateCommand, open_gate, close_gate, stop_gate, press_impulse, dir_idle, blocked,
  set_direction, resolve_impulse,
}
use gate_link.Gate.{
  Phase, Task, returned, listening, driving, Gate, Turn, plan, settle, finish, suspend, round,
  drive, execute, run_command,
}
use gate_link.Controls.Blocking.{Alerted, AtDirection}
use gate_link.Gate.Turns.{LeafFits, TurnFits, turn-fits}

abbrev pub AtRest : Controls → Motor → Motor → Type 0
AtRest c a b = (a.state ≡ idle) × (b.state ≡ idle) × (c.current_direction ≡ dir_idle)

abbrev pub TaskFits : Task → Controls → Motor → Motor → Type 0
TaskFits (returned _) c a b = AtRest c a b
TaskFits listening c a b = AtRest c a b
TaskFits (driving d a_phase b_phase moved deadline) c a b =
    AtDirection d c × LeafFits d a_phase a × LeafFits d b_phase b × Alerted d c

pub record IsSafe (now : ℕ) (g : Gate) : Type 0 where
  pub a_sound : IsSound now g.a
  pub b_sound : IsSound now g.b
  pub fits : TaskFits g.task g.controls g.a g.b

pub settle-IsSafe :
    {now : ℕ} (g : Gate)
    → IsSound now g.a
    → IsSound now g.b
    → g.a.state ≡ idle
    → g.b.state ≡ idle
    → IsSafe now (settle g)
unfolding settle
settle-IsSafe g a b x y = record { a_sound = a; b_sound = b; fits = (x, y, refl) }

module _ ⦃ticks : Ticks⦄ where
  pub finish-IsSafe :
      {now : ℕ} (moved : Bool) (result : Option GateCommand) (g : Gate)
      → IsSound now g.a
      → IsSound now g.b
      → IsSafe now (finish now moved result g)
  unfolding finish
  finish-IsSafe {now} moved result g a b = record {
    a_sound = stop-IsSound a;
    b_sound = stop-IsSound b;
    fits = (stop-idle now g.a, stop-idle now g.b, refl);
  }

  suspend-IsSafe :
      (next : Option ℕ) (d : Direction) (now : ℕ) (ta tb : Turn) (g : Gate)
      → TurnFits d now ta
      → TurnFits d now tb
      → AtDirection d g.controls
      → blocked g.controls d ≡ none
      → IsSafe now (suspend next d now ta tb (record g { a = ta.motor; b = tb.motor }))
  unfolding suspend
  suspend-IsSafe none d now ta tb g fa fb c free =
      finish-IsSafe tb.moved none (record g { a = ta.motor; b = tb.motor }) fa.0 fb.0
  suspend-IsSafe (some deadline) d now ta tb g fa fb c free = record {
    a_sound = fa.0;
    b_sound = fb.0;
    fits = (c, fa.1, fb.1, inl free);
  }

  pub round-IsSafe :
      (d : Direction) (now : ℕ) (a_phase b_phase : Phase) (moved : Bool) (g : Gate)
      → IsSound now g.a
      → IsSound now g.b
      → LeafFits d a_phase g.a
      → LeafFits d b_phase g.b
      → AtDirection d g.controls
      → IsSafe now (round d now a_phase b_phase moved g)
  unfolding round
  round-IsSafe d now a_phase b_phase moved g sa sb fa fb c =
      elim (Option-cases (blocked g.controls d)) [
        | inl free ↦
            rw (free, round)
              (suspend-IsSafe _ d now _ _ g (turn-fits d now _ (sa, fa))
                (turn-fits d now _ (sb, fb)) c free)
        | inr (_, stuck) ↦ rw (stuck, round) (finish-IsSafe moved none g sa sb)
      ]

  pub plan-LeafFits :
      (d : Direction) (now : ℕ) (m : Motor) → m.state ≡ idle → LeafFits d (plan m d now) m
  unfolding plan
  plan-LeafFits d now m e = elim (Option-cases (run_time m d)) [
    | inl none_needed ↦ rw (none_needed, plan) e
    | inr (_, needed) ↦ rw (needed, plan) (e, omega arith)
  ]

  drive-IsSafe :
      (d : Direction) (now : ℕ) (g : Gate)
      → IsSound now g.a
      → IsSound now g.b
      → g.a.state ≡ idle
      → g.b.state ≡ idle
      → IsSafe now (drive d now g)
  unfolding drive set_direction
  drive-IsSafe d now g sa sb ia ib = elim (Option-cases (blocked g.controls d)) [
    | inl free ↦
        rw (free, drive)
          (round-IsSafe d now _ _ false _ sa sb (plan-LeafFits d now g.a ia)
            (plan-LeafFits d now g.b ib) (refl, refl))
    | inr (_, stuck) ↦ rw (stuck, drive) (settle-IsSafe (record g { pending = none }) sa sb ia ib)
  ]

  run_command-IsSafe :
      (cmd : GateCommand) (now : ℕ) (g : Gate)
      → IsSound now g.a
      → IsSound now g.b
      → g.a.state ≡ idle
      → g.b.state ≡ idle
      → IsSafe now (run_command cmd now g)
  unfolding execute
  run_command-IsSafe open_gate now g sa sb ia ib = drive-IsSafe opening now g sa sb ia ib
  run_command-IsSafe close_gate now g sa sb ia ib = drive-IsSafe closing now g sa sb ia ib
  run_command-IsSafe stop_gate now g sa sb ia ib = finish-IsSafe false none g sa sb
  run_command-IsSafe press_impulse now g sa sb ia ib = finish-IsSafe false none g sa sb

  pub execute-IsSafe :
      (cmd : GateCommand) (now : ℕ) (g : Gate)
      → IsSound now g.a
      → IsSound now g.b
      → g.a.state ≡ idle
      → g.b.state ≡ idle
      → IsSafe now (execute cmd now g)
  unfolding execute
  execute-IsSafe cmd now g sa sb ia ib =
      run_command-IsSafe (resolve_impulse g.controls cmd) now g sa sb ia ib
