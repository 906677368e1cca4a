-- ===== src/Physical/Storm.antt =====
-- gate-core/src/gate.rs: what becomes of the wind guard's open command, from the start of the gate
-- task on.
use gate_link.Prelude.{ℕ, ◌≤◌, ◌≡◌, ◌⊎◌, Bool, true, inl, inr, none, some, List, ◌∷◌, arith}
use gate_link.Time.{Ticks}
use gate_link.Motor.{opening, closing}
use gate_link.Controls.{Controls, open_gate, call_wind_trigger, pos_open}
use gate_link.Gate.{Task, returned, listening, driving, Gate, classify}
use gate_link.Gate.Progress.Lateness.{Short}
use gate_link.Gate.World.{World, Event, call, happen, run}
use gate_link.Gate.World.Locked.{NoReset}
use gate_link.Gate.World.Course.{Legs}
use gate_link.Gate.World.Course.Runs.{run-OnCourse, happen-OnCourse, Short-run}
use gate_link.Gate.World.Pursuit.{Wants, Pursuit, new-Pursues}
use gate_link.Gate.World.Pursuit.Runs.{trip-Pursues, run-Pursues}
use gate_link.Physical.{motor, boot}
use gate_link.Physical.Bounds.{settings_a, settings_b, boot-OnCourse}

-- The command is in the slot, or light barrier 1 is broken, or both leaves are fully open.
abbrev pub Owed : Gate → Type 0
Owed g =
    (g.controls.command ≡ some open_gate)
    ⊎ ((g.controls.barrier1_active ≡ true) ⊎ ((g.a.position ≡ 255) × (g.b.position ≡ 255)))

abbrev pub NotDropped : Task → Gate → Type 0
NotDropped (returned _) g = Owed g ⊎ (g.pending ≡ some open_gate)
NotDropped listening g = Owed g
NotDropped (driving opening _ _ _ _) g = Unit
NotDropped (driving closing _ _ _ _) g = g.controls.command ≡ some open_gate

classify_open : (p q : ℕ) → classify p q ≡ pos_open → (p ≡ 255) × (q ≡ 255)
unfolding classify
classify_open p q e = ground arith

owed :
    (g : Gate)
    → g.controls.position ≡ classify g.a.position g.b.position
    → Wants g.controls
    → Owed g
owed g e w = ground (arith, classify_open g.a.position g.b.position)

module _ ⦃ticks : Ticks⦄ where
  not_dropped :
      (t : Task) (g : Gate)
      → Legs t g.controls g.a g.b
      → Pursuit t g.controls g.pending
      → NotDropped t g
  not_dropped (returned _) g l (inl w) = inl (owed g l.2 w)
  not_dropped (returned _) g l (inr p) = inr p
  not_dropped listening g l w = owed g l.2 w
  not_dropped (driving opening _ _ _ _) g l w = tt
  not_dropped (driving closing _ _ _ _) g l w = w

  module _ (now : ℕ) (c : Controls) (pa pb : ℕ) (locked : Bool) (ha : pa ≤ 255) (hb : pb ≤ 255)
      (before after : List Event) where
    abbrev pub tripped : World
    tripped =
        run (call call_wind_trigger ∷ after)
          (run before (boot now c (settings_a pa) (settings_b pb) locked))

    -- With the timing of the installation, from the start of the gate task on: once the wind guard
    -- trips, then through any later events but a reset of the lock, the lock stays engaged and the
    -- open command is never dropped. The gate opens; or it closes, with the command in the slot; or,
    -- when it does not move, the command is in the slot or, between two steps, pending, or light
    -- barrier 1 is broken, or both leaves are fully open. The milliseconds since the device started,
    -- times 255, fit in 64 bits.
    pub wind_command_kept :
        NoReset after
        → Short tripped.now
        → (tripped.gate.controls.wind_locked ≡ true) × NotDropped tripped.gate.task tripped.gate
    unfolding run happen
    wind_command_kept n short =
        let start = boot now c (settings_a pa) (settings_b pb) locked in
        let earlier = run before start in
        let trip = happen (call call_wind_trigger) earlier in
        let early = Short-run (call call_wind_trigger ∷ after) earlier short in
        let course = run-OnCourse before start early (boot-OnCourse now c pa pb locked ha hb) in
        let course_then = happen-OnCourse (call call_wind_trigger) earlier early course in
        let chase = run-Pursues after trip n short course_then (trip-Pursues earlier) in
        let course_now = run-OnCourse after trip short course_then in
        (chase.0.0, not_dropped tripped.gate.task tripped.gate course_now.legs chase.1)

  -- The same from a start with the lock restored and no command in the slot: the lock stays engaged
  -- and the open command that the start makes is not dropped, through any events but a reset of the
  -- lock, with the timing of the installation and the milliseconds since the device started, times
  -- 255, in 64 bits.
  pub restored_lock_kept :
      (now : ℕ) (c : Controls) (pa pb : ℕ) (es : List Event)
      → pa ≤ 255
      → pb ≤ 255
      → c.command ≡ none
      → NoReset es
      → let w = run es (boot now c (settings_a pa) (settings_b pb) true) in
        Short w.now → (w.gate.controls.wind_locked ≡ true) × NotDropped w.gate.task w.gate
  unfolding boot
  restored_lock_kept now c pa pb es ha hb free n short =
      let start = boot now c (settings_a pa) (settings_b pb) true in
      let course = boot-OnCourse now c pa pb true ha hb in
      let chase =
        run-Pursues es start n short course
          (new-Pursues c (motor (settings_a pa) now) (motor (settings_b pb) now) free) in
      let w = run es start in
      (chase.0.0, not_dropped w.gate.task w.gate (run-OnCourse es start short course).legs chase.1)
