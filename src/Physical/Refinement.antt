-- ===== src/Physical/Refinement.antt =====
-- gate-core/src/gate.rs: from the start of the gate task on, the gate is a cover, and is shown as one.
use gate_link.Prelude.{ℕ, ◌≤◌, ◌≡◌, refl, Bool, none, List, arith}
use mathlib.Core.Path.{subst}
use gate_link.Time.{Ticks}
use gate_link.Motor.{opening, closing, Motor}
use gate_link.Motor
use gate_link.Controls.{Controls, cover_state, direction_code}
use gate_link.Gate
use gate_link.Gate.{Task, returned, listening, driving, classify}
use gate_link.Gate.Cover.{Cover, shown, last_of, moving_of, view, cover_of}
use gate_link.Gate.Invariant.{TaskFits}
use gate_link.Gate.Progress.Lateness.{Short}
use gate_link.Gate.World.{Event, run}
use gate_link.Gate.World.Safety.{run-IsSafe}
use gate_link.Gate.World.Course.{Legs}
use gate_link.Gate.World.Course.Runs.{run-OnCourse}
use gate_link.Gate.World.Refinement.Runs.{FollowsAll, run-FollowsAll}
use gate_link.Physical.{motor, boot}
use gate_link.Physical.Bounds.{settings_a, settings_b, boot-OnCourse}
use gate_link.Physical.Safety.{boot-IsSafe}

-- The cover that a start restores, at rest.
abbrev pub restored_cover : Controls → ℕ → ℕ → Bool → Cover
restored_cover c pa pb locked = record {
  a = pa;
  b = pb;
  last = last_of c.last_direction;
  moving = none;
  locked = locked;
}

module _ ⦃ticks : Ticks⦄ where
  state-shown :
      (t : Task) (c : Controls) (a b : Motor)
      → TaskFits t c a b
      → Legs t c a b
      → cover_state c ≡ shown (view (moving_of t) c a b)
  unfolding cover_state shown moving_of classify direction_code
  state-shown (returned _) c a b f l = ground arith
  state-shown listening c a b f l = ground arith
  state-shown (driving opening _ _ _ _) c a b f l = ground arith
  state-shown (driving closing _ _ _ _) c a b f l = ground arith

  boot-cover :
      (now : ℕ) (c : Controls) (pa pb : ℕ) (locked : Bool)
      → cover_of (boot now c (settings_a pa) (settings_b pb) locked).gate
        ≡ restored_cover c pa pb locked
  unfolding boot motor Motor.new Gate.new moving_of
  boot-cover now c pa pb locked = refl

  -- With the timing of the installation, from the start of the gate task on, the gate follows the
  -- specification of a cover, event by event: time and the calls that do not concern the wind lock
  -- leave the cover as it is, a trip of the guard and its reset change the lock only, and a poll goes
  -- a path of movements that begin from rest and not against the lock, that take no leaf further from
  -- the end it moves to, and that end in a rest before another one begins; and `cover_state` gives what that cover is shown as. The milliseconds since the device
  -- started, times 255, fit in 64 bits.
  pub gate-Cover :
      (now : ℕ) (c : Controls) (pa pb : ℕ) (locked : Bool) (es : List Event)
      → pa ≤ 255
      → pb ≤ 255
      → let w = run es (boot now c (settings_a pa) (settings_b pb) locked) in
        Short w.now
        → FollowsAll es (restored_cover c pa pb locked) (cover_of w.gate)
          × (cover_state w.gate.controls ≡ shown (cover_of w.gate))
  gate-Cover now c pa pb locked es ha hb short =
      let start = boot now c (settings_a pa) (settings_b pb) locked in
      let safe = boot-IsSafe now c (settings_a pa) (settings_b pb) locked ha hb in
      let g = (run es start).gate in
      let course = run-OnCourse es start short (boot-OnCourse now c pa pb locked ha hb) in
      (
        subst (λ s. FollowsAll es s (cover_of g)) (boot-cover now c pa pb locked)
            (run-FollowsAll es start safe),
        state-shown g.task g.controls g.a g.b (run-IsSafe es start safe).fits course.legs,
      )
