-- ===== src/Gate/Cover.antt =====
-- gate-core/src/gate.rs: the gate as its user sees it, and how the gate task is to be seen so.
use gate_link.Prelude.{
  ℕ, ◌≤◌, ◌≡◌, refl, Bool, false, ◌&&◌, ◌==◌, if◌then◌else◌, Option, none, some,
}
use gate_link.Motor.{Direction, opening, closing, Motor}
use gate_link.Controls.{
  Controls, CoverState, is_opening, is_closing, is_open, is_closed, is_closing_direction,
  dir_opening, direction_code,
}
use gate_link.Gate.{Task, driving, Gate}

-- The positions of the two leaves, the direction last taken, the one under way, and the wind lock.
pub record Cover : Type 0 where
  pub a : ℕ
  pub b : ℕ
  pub last : Direction
  pub moving : Option Direction
  pub locked : Bool

-- A leaf that moves in a direction gets no further from its end.
abbrev pub Further : Direction → ℕ → ℕ → Type 0
Further opening p q = p ≤ q
Further closing p q = q ≤ p

abbrev pub forbids : Bool → Direction → Bool
forbids locked d = is_closing_direction d && locked

-- A cover at rest may begin a movement that the lock does not forbid. A movement goes on in its
-- direction as long as the lock does not forbid it, and may end at any time; another one begins from
-- rest only. No step sets or resets the lock.
pub data Step (s t : Cover) : Type 0 where
  begin :
      (d : Direction)
      → s.moving ≡ none
      → forbids s.locked d ≡ false
      → t ≡ record s { moving = some d; last = d }
      → Step s t
  advance :
      (d : Direction) (p q : ℕ)
      → s.moving ≡ some d
      → forbids s.locked d ≡ false
      → Further d s.a p
      → Further d s.b q
      → t ≡ record s { a = p; b = q }
      → Step s t
  rest :
      (d : Direction) (p q : ℕ)
      → s.moving ≡ some d
      → Further d s.a p
      → Further d s.b q
      → t ≡ record s { a = p; b = q; moving = none }
      → Step s t

pub data Reach (s : Cover) : Cover → Type 0 where
  here : Reach s s
  next : {t u : Cover} → Reach s t → Step t u → Reach s u

pub Reach-trans : {s t u : Cover} → Reach s t → Reach t u → Reach s u
Reach-trans r here = r
Reach-trans r (next q st) = next (Reach-trans r q) st

-- What a cover is shown as.
unfoldable pub shown : Cover → CoverState
shown s = elim s.moving [
  | some opening ↦ is_opening
  | some closing ↦ is_closing
  | none ↦ if s.a == 0 && s.b == 0 then is_closed else is_open
]

unfoldable pub last_of : ℕ → Direction
last_of code = if code == dir_opening then opening else closing

unfoldable pub moving_of : Task → Option Direction
moving_of (driving d _ _ _ _) = some d
moving_of _ = none

abbrev pub view : Option Direction → Controls → Motor → Motor → Cover
view moving c a b = record {
  a = a.position;
  b = b.position;
  last = last_of c.last_direction;
  moving = moving;
  locked = c.wind_locked;
}

-- The abstraction: the cover that a gate stands for.
abbrev pub cover_of : Gate → Cover
cover_of g = view (moving_of g.task) g.controls g.a g.b

pub last_of-direction_code : (d : Direction) → last_of (direction_code d) ≡ d
unfolding last_of direction_code
last_of-direction_code opening = refl
last_of-direction_code closing = refl
