-- ===== src/Physical/Bypass.antt =====
-- gate-core/src/gate.rs: the light barrier bypass, from the start of the gate task on.
use gate_link.Prelude.{ℕ, ◌≤◌, ◌≡◌, inl, inr, Bool, Bool-cases, true, false, ◌&&◌, List, arith}
use gate_link.Time.{Ticks}
use gate_link.Motor.{Motor, idle, Pin, Write, open_pin, close_pin}
use gate_link.Motor.Relays.{IsSound, is_high, idle-Released}
use gate_link.Controls.{Controls}
use gate_link.Gate.{Phase, Task, driving, returned, listening, Gate}
use gate_link.Gate
use gate_link.Gate.World.{World, Event, Wake, run, resume}
use gate_link.Gate.World.Polls.{is_driving}
use gate_link.Gate.World.Safety.{IsSafeWorld, run-IsSafe}
use gate_link.Physical.{MotorSettings, boot}
use gate_link.Gate.World.Moved.{is_idle, MarkedGate, run-Marked}
use gate_link.Gate.World.Spent.{StaysDriving, run-Spent}
use gate_link.Physical.Safety.{Side, side_a, side_b, leaf, Released, IsSafe-Released, boot-IsSafe}

Released-low :
    (side : Side) (p : Pin) (g : Gate) → Released g → is_high p (leaf side g).writes ≡ true → ⊥
Released-low side_a open_pin g (low, _, _, _) h = absurd (ground arith)
Released-low side_a close_pin g (_, low, _, _) h = absurd (ground arith)
Released-low side_b open_pin g (_, _, low, _) h = absurd (ground arith)
Released-low side_b close_pin g (_, _, _, low) h = absurd (ground arith)

idle_low :
    (p : Pin) (ws : List Write)
    → (is_high open_pin ws ≡ false) × (is_high close_pin ws ≡ false)
    → is_high p ws ≡ true
    → ⊥
idle_low open_pin ws (low, _) h = absurd (ground arith)
idle_low close_pin ws (_, low) h = absurd (ground arith)

is_idle-idle : (m : Motor) → is_idle m ≡ true → m.state ≡ idle
is_idle-idle m h = ground arith

energized_not_idle :
    (p : Pin) {now : ℕ} {m : Motor} → IsSound now m → is_high p m.writes ≡ true → is_idle m ≡ false
energized_not_idle p {now} {m} s h = elim (Bool-cases (is_idle m)) [
  | inr runs ↦ runs
  | inl rests ↦ absurd (idle_low p m.writes (idle-Released s (is_idle-idle m rests)) h)
]

module _ ⦃ticks : Ticks⦄ where
  boot-Marked :
      (now : ℕ) (c : Controls) (a b : MotorSettings) (locked : Bool)
      → MarkedGate (boot now c a b locked).gate
  unfolding boot Gate.new
  boot-Marked now c a b locked = tt

module _ ⦃ticks : Ticks⦄ (now : ℕ) (c : Controls) (a b : MotorSettings) (locked : Bool)
    (ha : a.initial_position ≤ 255) (hb : b.initial_position ≤ 255) (es : List Event) where
  abbrev after : World
  after = run es (boot now c a b locked)

  after-IsSafe : IsSafeWorld after
  after-IsSafe = run-IsSafe es (boot now c a b locked) (boot-IsSafe now c a b locked ha hb)

  energized_driving :
      (side : Side) (p : Pin)
      → is_high p (leaf side after.gate).writes ≡ true
      → is_driving after.gate.task ≡ true
  energized_driving side p h = elim (Bool-cases (is_driving after.gate.task)) [
    | inl moves ↦ moves
    | inr over ↦ absurd (Released-low side p after.gate (IsSafe-Released after-IsSafe over) h)
  ]

  energized_runs :
      (side : Side) (p : Pin)
      → is_high p (leaf side after.gate).writes ≡ true
      → is_idle after.gate.a && is_idle after.gate.b ≡ false
  energized_runs side_a p h = ground (arith, energized_not_idle p after-IsSafe.a_sound h)
  energized_runs side_b p h = ground (arith, energized_not_idle p after-IsSafe.b_sound h)

  after-Marked : MarkedGate after.gate
  after-Marked =
      run-Marked es (boot now c a b locked) (boot-IsSafe now c a b locked ha hb)
        (boot-Marked now c a b locked)

  -- From the start on, when a relay of a leaf is energized at some moment, and the movement lasts
  -- through any further events, those that arm the light barrier bypass included, until a poll ends
  -- it, completed or interrupted: the bypass is off behind that poll.
  pub bypass_used_up :
      (side : Side) (p : Pin) (later : List Event) (k : Wake)
      → is_high p (leaf side after.gate).writes ≡ true
      → StaysDriving later after
      → is_driving (resume k (run later after).now (run later after).gate).task ≡ false
      → (resume k (run later after).now (run later after).gate).controls.barrier_bypass ≡ false
  bypass_used_up side p later k energized stays over =
      run-Spent after later k after-Marked (energized_runs side p energized)
        (energized_driving side p energized) stays over
