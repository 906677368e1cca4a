-- ===== src/Physical/Board/Traces.antt =====
-- src/physical/inputs.rs: the calls that the tasks of the inputs make.
use gate_link.Prelude.{
  ◌≡◌, refl, ap, sym, ◌∙◌, inl, inr, Bool, Bool-cases, true, false, List, [], ◌∷◌, ◌++◌,
}
use gate_link.Time.{Ticks}
use gate_link.Controls.{
  Controls, Call, call_impulse, call_wind_trigger, call_reset_wind_lock, call_barrier1_set,
  call_barrier2_set, call_set_barrier_bypass, apply_call,
}
use gate_link.Debounce.{sample}
use gate_link.Levels.{
  Barrier, light_barrier1, light_barrier2, Level, differ, begin_level, level_round, setter,
}
use gate_link.Gate.World.{World, Event, call, happen, run}
use gate_link.Physical.Inputs.{
  EdgeInput, push_button, radio_button, wind_sensor, wind_reset, barrier_bypass_button, fire_if,
  action,
}
use gate_link.Physical.Board.{
  Board, BoardEvent, edge_sampled, level_begun, level_read, other, with_controls, level_done,
  board_step, run_board,
}

abbrev pub call_for : EdgeInput → Call
call_for push_button = call_impulse
call_for radio_button = call_impulse
call_for wind_sensor = call_wind_trigger
call_for wind_reset = call_reset_wind_lock
call_for barrier_bypass_button = call_set_barrier_bypass true

abbrev pub set_call : Barrier → Bool → Call
set_call light_barrier1 active = call_barrier1_set active
set_call light_barrier2 active = call_barrier2_set active

abbrev pub call_if : Bool → Call → List Event
call_if true k = call k ∷ []
call_if false k = []

-- What an event of the board is for the gate.
abbrev pub emits : BoardEvent → Board → List Event
emits (edge_sampled i pressed) b = call_if (sample pressed (b.edges i)).1 (call_for i)
emits (level_begun r active) b = call (set_call r active) ∷ []
emits (level_read r active) b = call_if (differ active (b.barriers r)) (set_call r active)
emits (other e) b = e ∷ []

applies : (i : EdgeInput) (c : Controls) → action i c ≡ apply_call (call_for i) c
unfolding action apply_call
applies push_button c = refl
applies radio_button c = refl
applies wind_sensor c = refl
applies wind_reset c = refl
applies barrier_bypass_button c = refl

sets :
    (r : Barrier) (active : Bool) (c : Controls)
    → setter r active c ≡ apply_call (set_call r active) c
unfolding setter apply_call
sets light_barrier1 active c = refl
sets light_barrier2 active c = refl

module _ ⦃ticks : Ticks⦄ where
  -- A poll of an input's task as the call that it makes.
  edge_emits :
      (fired : Bool) (i : EdgeInput) (w : World)
      → with_controls (fire_if i fired w.gate.controls) w ≡ run (call_if fired (call_for i)) w
  unfolding with_controls fire_if run happen
  edge_emits true i w = ap (λ c. with_controls c w) (applies i w.gate.controls)
  edge_emits false i w = refl

  level_emits :
      (r : Barrier) (active : Bool) (l : Level) (w : World)
      → l.controls ≡ w.gate.controls
      → with_controls (level_round r active l).controls w
        ≡ run (call_if (differ active l.last_active) (set_call r active)) w
  unfolding with_controls level_round run happen
  level_emits r active l w e = elim (Bool-cases (differ active l.last_active)) [
    | inl changed ↦
        rw (changed, level_round)
          (ap (λ c. with_controls c w)
            (sets r active l.controls ∙ ap (apply_call (set_call r active)) e))
    | inr same ↦ rw (same, level_round) (ap (λ c. with_controls c w) e)
  ]

  step-emits : (e : BoardEvent) (b : Board) → (board_step e b).world ≡ run (emits e b) b.world
  unfolding board_step level_done begin_level with_controls run happen
  step-emits (edge_sampled i pressed) b = edge_emits (sample pressed (b.edges i)).1 i b.world
  step-emits (level_begun r active) b =
      ap (λ c. with_controls c b.world) (sets r active b.world.gate.controls)
  step-emits (level_read r active) b =
      level_emits r active (record { last_active = b.barriers r; controls = b.world.gate.controls })
        b.world refl
  step-emits (other e) b = refl

  pub run-append : (xs ys : List Event) (w : World) → run (xs ++ ys) w ≡ run ys (run xs w)
  unfolding run
  run-append [] ys w = refl
  run-append (x ∷ xs) ys w = run-append xs ys (happen x w)

  -- What a run of the board is for the gate.
  unfoldable pub trace : List BoardEvent → Board → List Event
  trace [] b = []
  trace (e ∷ es) b = emits e b ++ trace es (board_step e b)

  -- The tasks of the inputs, next to the gate task, the light and the rest, do to the gate what the
  -- calls that they make do: every run of the board is a run of the gate's world.
  pub run_board-trace :
      (es : List BoardEvent) (b : Board) → (run_board es b).world ≡ run (trace es b) b.world
  unfolding run_board trace run
  run_board-trace [] b = refl
  run_board-trace (e ∷ es) b =
      run_board-trace es (board_step e b)
      ∙ ap (run (trace es (board_step e b))) (step-emits e b)
      ∙ sym (run-append (emits e b) (trace es (board_step e b)) b.world)
