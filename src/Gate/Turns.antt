-- ===== src/Gate/Turns.antt =====
-- The turn of one leaf in the loop of `drive`: the leaf's phase and its motor.
use gate_link.Prelude.{ℕ, ◌≤◌, ◌≡◌, refl, Option, none, some, arith, leb, leb→le, if-intro}
use gate_link.Time.{Ticks}
use gate_link.Motor.{Direction, State, idle, Motor, ready_at, run_time, start, stop}
use gate_link.Motor
use gate_link.Motor.Relays.{IsSound, stop-IsSound, stop-idle, start-IsSound}
use gate_link.Gate.{
  Phase, waiting, running, done, Turn, turn, begin_run, start_due, stop_due, add_deadline,
}

abbrev pub RunsIn : Direction → State → Type 0
RunsIn d idle = ⊥
RunsIn d (Motor.running e since) = e ≡ d

-- A leaf that waits is idle, and will be ready when its wait is over; one that runs runs in the
-- direction of the movement; one that is done is idle.
abbrev pub LeafFits : Direction → Phase → Motor → Type 0
LeafFits d (waiting at) m = (m.state ≡ idle) × (ready_at m ≤ at)
LeafFits d (running at) m = RunsIn d m.state
LeafFits d done m = m.state ≡ idle

module _ ⦃ticks : Ticks⦄ where
  start_state : (now : ℕ) (d : Direction) (m : Motor) → (start now d m).state ≡ Motor.running d now
  unfolding start
  start_state now d m = refl

  abbrev pub TurnFits : Direction → ℕ → Turn → Type 0
  TurnFits d now t = IsSound now t.motor × LeafFits d t.phase t.motor

  begin_run-fits :
      (time : Option ℕ) (d : Direction) (now : ℕ) (t : Turn)
      → IsSound now t.motor
      → t.motor.state ≡ idle
      → ready_at t.motor ≤ now
      → TurnFits d now (begin_run time d now t)
  unfolding turn
  begin_run-fits none d now t s e h = (s, e)
  begin_run-fits (some time) d now t s e h =
      (start-IsSound d e h s, rw (start_state now d t.motor) refl)

  fits_waiting :
      (d : Direction) (at : ℕ) (t : Turn)
      → t.phase ≡ waiting at
      → LeafFits d t.phase t.motor
      → (t.motor.state ≡ idle) × (ready_at t.motor ≤ at)
  fits_waiting d at t e f = rw e at f

  start_due-fits :
      (p : Phase) (d : Direction) (now : ℕ) (t : Turn)
      → t.phase ≡ p
      → TurnFits d now t
      → TurnFits d now (start_due p d now t)
  unfolding turn
  start_due-fits (waiting at) d now t e (s, f) =
      let (rests, ready) = fits_waiting d at t e f in
      if-intro (TurnFits d now) (leb at now)
        (λ due.
          begin_run-fits (run_time t.motor d) d now t s rests (omega (arith, leb→le at now due)))
        (λ _. (s, f))
  start_due-fits (running at) d now t e f = f
  start_due-fits done d now t e f = f

  stop_due-fits :
      (p : Phase) (d : Direction) (now : ℕ) (t : Turn)
      → TurnFits d now t
      → TurnFits d now (stop_due p now t)
  unfolding turn
  stop_due-fits (running at) d now t (s, f) =
      if-intro (TurnFits d now) (leb at now) (λ _. (stop-IsSound s, stop-idle now t.motor))
        (λ _. (s, f))
  stop_due-fits (waiting at) d now t f = f
  stop_due-fits done d now t f = f

  add_deadline-fits :
      (p : Phase) (d : Direction) (now : ℕ) (t : Turn)
      → TurnFits d now t
      → TurnFits d now (add_deadline p t)
  unfolding turn
  add_deadline-fits (waiting at) d now t f = f
  add_deadline-fits (running at) d now t f = f
  add_deadline-fits done d now t f = f

  pub turn-fits :
      (d : Direction) (now : ℕ) (t : Turn) → TurnFits d now t → TurnFits d now (turn d now t)
  unfolding turn
  turn-fits d now t f =
      let t' = start_due t.phase d now t in
      let t'' = stop_due t'.phase now t' in
      add_deadline-fits t''.phase d now t''
        (stop_due-fits t'.phase d now t' (start_due-fits t.phase d now t refl f))
