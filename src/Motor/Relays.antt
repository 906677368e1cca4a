-- ===== src/Motor/Relays.antt =====
-- The relays of one leaf: which of them is energized, at every moment of the log of writes.
use gate_link.Prelude.{
  ℕ, ◌+◌, ◌≤◌, ◌≡◌, Bool, true, false, ◌&&◌, Option, none, some, List, [], ◌∷◌, arith,
}
use mathlib.Core.Path.{subst}
use gate_link.Time.{Ticks}
use gate_link.Motor.{
  Direction, opening, closing, State, idle, running, LeafTiming, Pin, open_pin, close_pin, Write,
  set_low, set_high, Motor, new, ready_at, settle, start, stop, moved_to,
}

abbrev same_pin : Pin → Pin → Bool
same_pin open_pin open_pin = true
same_pin close_pin close_pin = true
same_pin _ _ = false

abbrev pick : Bool → Bool → Bool → Bool
pick true level rest = level
pick false level rest = rest

-- The level of a pin behind a log. `main` drives every relay low before it hands the pins over.
abbrev pub is_high : Pin → List Write → Bool
is_high p [] = false
is_high p (set_low q at ∷ ws) = pick (same_pin p q) false (is_high p ws)
is_high p (set_high q at ∷ ws) = pick (same_pin p q) true (is_high p ws)

-- The two relays are never energized at once: not now, and not behind any earlier write.
abbrev pub Exclusive : List Write → Type 0
Exclusive [] = Unit {0}
Exclusive (w ∷ ws) =
    (is_high open_pin (w ∷ ws) && is_high close_pin (w ∷ ws) ≡ false) × Exclusive ws

abbrev pub relay_of : Direction → Pin
relay_of opening = open_pin
relay_of closing = close_pin

abbrev pub other_relay : Direction → Pin
other_relay opening = close_pin
other_relay closing = open_pin

abbrev pub Past : ℕ → Option ℕ → Type 0
Past now none = Unit {0}
Past now (some t) = t ≤ now

-- `since` is no earlier than a reverse pause after the motor was last stopped.
abbrev pub Rested : ℕ → ℕ → Option ℕ → Type 0
Rested since pause none = Unit {0}
Rested since pause (some t) = t + pause ≤ since

-- An idle motor has both relays released. A running one has exactly the relay of its direction
-- energized, started no later than now, and no earlier than it was ready.
abbrev pub Matches : ℕ → List Write → Option ℕ → ℕ → State → Type 0
Matches now ws stopped pause idle =
    (is_high open_pin ws ≡ false) × (is_high close_pin ws ≡ false) × Past now stopped
Matches now ws stopped pause (running d since) =
    (is_high (relay_of d) ws ≡ true)
    × (is_high (other_relay d) ws ≡ false)
    × (since ≤ now)
    × Rested since pause stopped

-- What holds of a motor at every time.
pub record IsSound (now : ℕ) (m : Motor) : Type 0 where
  pub exclusive : Exclusive m.writes
  pub matching : Matches now m.writes m.stopped_at m.reverse_pause m.state
  pub in_range : m.position ≤ 255

pub new-IsSound :
    (timing : LeafTiming) (overrun pause initial now : ℕ)
    → initial ≤ 255
    → IsSound now (new timing overrun pause initial now)
unfolding new
new-IsSound timing overrun pause initial now h = ground arith

pub moved_to_bounds : (p : ℕ) (d : Direction) (t : ℕ) → p ≤ 255 → moved_to p d t ≤ 255
unfolding moved_to
moved_to_bounds p opening t h = omega arith
moved_to_bounds p closing t h = omega arith

pub IsSound-later : {now later : ℕ} {m : Motor} → now ≤ later → IsSound now m → IsSound later m
IsSound-later {now} {later} {m} h s = ground arith

module _ ⦃ticks : Ticks⦄ where
  pub settle-IsSound : {now : ℕ} {m : Motor} → IsSound now m → IsSound now (settle now m)
  unfolding settle
  settle-IsSound {now} {m} s = ground arith

  pub stop-IsSound : {now : ℕ} {m : Motor} → IsSound now m → IsSound now (stop now m)
  unfolding stop
  stop-IsSound s = settle-IsSound s

  pub stop-idle : (now : ℕ) (m : Motor) → (stop now m).state ≡ idle
  unfolding stop
  stop-idle now m = ground arith

  pub start-IsSound :
      {now : ℕ} {m : Motor} (d : Direction)
      → m.state ≡ idle
      → ready_at m ≤ now
      → IsSound now m
      → IsSound now (start now d m)
  unfolding start ready_at
  start-IsSound {now} {m} d e h s = ground arith

pub running-Rested :
    {now : ℕ} {m : Motor} (d : Direction) (since : ℕ)
    → IsSound now m
    → m.state ≡ running d since
    → (is_high (relay_of d) m.writes ≡ true)
      × (is_high (other_relay d) m.writes ≡ false)
      × (since ≤ now)
      × Rested since m.reverse_pause m.stopped_at
running-Rested {now} {m} d since s e =
    subst (Matches now m.writes m.stopped_at m.reverse_pause) e s.matching

pub idle-Released :
    {now : ℕ} {m : Motor}
    → IsSound now m
    → m.state ≡ idle
    → (is_high open_pin m.writes ≡ false) × (is_high close_pin m.writes ≡ false)
idle-Released {now} {m} s e =
    let k = subst (Matches now m.writes m.stopped_at m.reverse_pause) e s.matching in (k.0, k.1)
