-- ===== src/Physical/Inputs/Pulses.antt =====
-- src/physical/inputs.rs: which samples of an input act on the gate.
use gate_link.Prelude.{
  ℕ, zero, suc, ◌≤◌, ◌<◌, ◌≡◌, ◌↔◌, refl, ap, ◌∙◌, Bool, true, false, some, List, [], ◌∷◌, arith,
}
use gate_link.Controls.{Controls, open_gate, wind_trigger}
use gate_link.Debounce.{Debouncer, sample, feed, tally}
use gate_link.Debounce
use gate_link.Debounce.Presses.{IsSound, longest, reports-press}
use gate_link.Physical.Inputs.{
  EdgeInput, wind_sensor, action, fire_if, edge_run, edge_task, edge_stable_samples,
}

pub act_times : ℕ → EdgeInput → Controls → Controls
act_times zero input c = c
act_times (suc n) input c = act_times n input (action input c)

tallied :
    (input : EdgeInput) (fired : Bool) (n : ℕ) (c : Controls)
    → act_times n input (fire_if input fired c) ≡ act_times (tally fired n) input c
unfolding act_times fire_if
tallied input true n c = refl
tallied input false n c = refl

-- The action is done as often as `feed` counts.
edge_run-feed :
    (input : EdgeInput) (xs : List Bool) (d : Debouncer) (c : Controls)
    → edge_run input xs d c ≡ act_times (feed xs d).1 input c
unfolding edge_run feed act_times
edge_run-feed input [] d c = refl
edge_run-feed input (x ∷ xs) d c =
    edge_run-feed input xs (sample x d).0 (fire_if input (sample x d).1 c)
    ∙ tallied input (sample x d).1 (feed xs (sample x d).0).1 c

pub start-IsSound : IsSound (Debounce.new edge_stable_samples)
unfolding Debounce.new
start-IsSound = record {
  some_samples = omega arith;
  samples_fit = omega arith;
  below = omega arith;
}

-- The action is done some number of times, which is not zero exactly when five samples in a row are
-- pressed.
pub edge_task-feed :
    (input : EdgeInput) (xs : List Bool) (c : Controls)
    → (n : ℕ) × (edge_task input xs c ≡ act_times n input c) × ((0 < n) ↔ (5 ≤ longest 0 xs))
unfolding edge_task Debounce.new
edge_task-feed input xs c = (
  (feed xs (Debounce.new edge_stable_samples)).1,
  edge_run-feed input xs (Debounce.new edge_stable_samples) c,
  reports-press xs (Debounce.new edge_stable_samples) start-IsSound refl,
)

latched : (n : ℕ) (c : Controls) → 0 < n → (act_times n wind_sensor c).wind_locked ≡ true
unfolding act_times action wind_trigger
latched zero c h = absurd (omega (arith, h))
latched (suc zero) c h = refl
latched (suc (suc n)) c h = latched (suc n) (wind_trigger c) (omega arith)

commanded : (n : ℕ) (c : Controls) → 0 < n → (act_times n wind_sensor c).command ≡ some open_gate
unfolding act_times action wind_trigger
commanded zero c h = absurd (omega (arith, h))
commanded (suc zero) c h = refl
commanded (suc (suc n)) c h = commanded (suc n) (wind_trigger c) (omega arith)

-- A pulse of the wind guard that is stable for five samples, among whatever bounces, latches the wind
-- lock and leaves an open command for the gate task.
pub wind_pulse_latches :
    (xs : List Bool) (c : Controls)
    → 5 ≤ longest 0 xs
    → ((edge_task wind_sensor xs c).wind_locked ≡ true)
      × ((edge_task wind_sensor xs c).command ≡ some open_gate)
wind_pulse_latches xs c h =
    let (n, e, pressed) = edge_task-feed wind_sensor xs c in
    (
      ap (λ x. x.wind_locked) e ∙ latched n c (pressed.1 h),
      ap (λ x. x.command) e ∙ commanded n c (pressed.1 h),
    )
