-- ===== src/Physical/Board/Storms.antt =====
-- src/physical/inputs.rs and gate-core/src/gate.rs: from a gust on the wind guard's pin to the gate,
-- among all local tasks.
use gate_link.Prelude.{
  ℕ, zero, suc, ◌≤◌, ◌<◌, ◌≡◌, refl, ap, sym, ◌∙◌, inl, inr, Bool, Bool-cases, true, false, List,
  [], ◌∷◌, ◌++◌, All, arith,
}
use mathlib.Core.Path.{subst}
use gate_link.Time.{Ticks}
use gate_link.Controls.{Controls, Call, call_wind_trigger}
use gate_link.Debounce.{sample, feed, tally}
use gate_link.Debounce
use gate_link.Debounce.Presses.{longest, reports-press}
use gate_link.Levels.{Barrier, light_barrier1, light_barrier2, differ}
use gate_link.Gate.Progress.Lateness.{Short}
use gate_link.Gate.World.{World, Event, call, run}
use gate_link.Gate.World.Locked.{is_reset, NoReset}
use gate_link.Physical.{boot}
use gate_link.Physical.Inputs.{EdgeInput, wind_sensor, wind_reset, edge_stable_samples}
use gate_link.Physical.Inputs.Pulses.{start-IsSound}
use gate_link.Physical.Bounds.{settings_a, settings_b}
use gate_link.Physical.Storm.{NotDropped, tripped, wind_command_kept}
use gate_link.Physical.Board.{
  Board, BoardEvent, edge_sampled, level_begun, level_read, other, same_input, begin_board,
  board_step, run_board,
}
use gate_link.Physical.Board.Traces.{
  call_for, set_call, call_if, trace, run-append, run_board-trace,
}
use gate_link.Physical.Board.Gusts.{
  samples, acts, acts-own, acts-other, acts-begun, acts-read, acts-beside, acts-Makes, All-behind,
  same_input-eq,
}

-- Nothing but the reset input resets the lock.
abbrev pub is_reset_beside : BoardEvent → Bool
is_reset_beside (other e) = is_reset e
is_reset_beside _ = false

no_reset_call :
    (j : EdgeInput) → same_input j wind_reset ≡ false → is_reset (call (call_for j)) ≡ false
unfolding same_input
no_reset_call j h = ground arith

no_reset_set : (r : Barrier) (active : Bool) → is_reset (call (set_call r active)) ≡ false
no_reset_set light_barrier1 active = refl
no_reset_set light_barrier2 active = refl

maybe-NoReset :
    (fired : Bool) (xs : List Event) (k : Call)
    → is_reset (call k) ≡ false
    → NoReset xs
    → NoReset (call_if fired k ++ xs)
maybe-NoReset true xs k h n = (h, n)
maybe-NoReset false xs k h n = n

silent-NoReset :
    (fired : Bool) (n : ℕ) (xs : List Event)
    → tally fired n ≡ 0
    → (n ≡ 0 → NoReset xs)
    → NoReset (call_if fired (call_for wind_reset) ++ xs)
silent-NoReset true n xs h later = absurd (omega (arith, h))
silent-NoReset false n xs h later = later h

silent : (n l : ℕ) → (0 < n → 5 ≤ l) → l < 5 → n ≡ 0
silent zero l h k = refl
silent (suc n) l h k = absurd (omega (arith, h (omega arith), k))

module _ ⦃ticks : Ticks⦄ where
  trace-NoReset :
      (es : List BoardEvent) (b : Board)
      → acts wind_reset es b ≡ 0
      → All (λ e. is_reset_beside e ≡ false) es
      → NoReset (trace es b)
  unfolding trace
  trace-NoReset [] b h q = tt
  trace-NoReset (edge_sampled j pressed ∷ es) b h (_, q) =
      let b' = board_step (edge_sampled j pressed) b in
      elim (Bool-cases (same_input j wind_reset)) [
        | inl same ↦
            let eq = same_input-eq j wind_reset same in
            subst
              (λ k. NoReset (
                call_if (sample pressed (b.edges k)).1 (call_for k)
                ++ trace es (board_step (edge_sampled k pressed) b)))
              (sym eq)
              (silent-NoReset (sample pressed (b.edges wind_reset)).1
                (acts wind_reset es (board_step (edge_sampled wind_reset pressed) b))
                (trace es (board_step (edge_sampled wind_reset pressed) b))
                (sym (acts-own wind_reset pressed es b)
                  ∙ subst (λ k. acts wind_reset (edge_sampled k pressed ∷ es) b ≡ 0) eq h)
                (λ n. trace-NoReset es (board_step (edge_sampled wind_reset pressed) b) n q))
        | inr differs ↦
            maybe-NoReset (sample pressed (b.edges j)).1 (trace es b') (call_for j)
              (no_reset_call j differs)
              (trace-NoReset es b' (sym (acts-other j wind_reset pressed es b differs) ∙ h) q)
      ]
  trace-NoReset (level_begun r active ∷ es) b h (_, q) = (
    no_reset_set r active,
    trace-NoReset es (board_step (level_begun r active) b)
        (sym (acts-begun wind_reset r active es b) ∙ h) q,
  )
  trace-NoReset (level_read r active ∷ es) b h (_, q) =
      let b' = board_step (level_read r active) b in
      maybe-NoReset (differ active (b.barriers r)) (trace es b') (set_call r active)
        (no_reset_set r active)
        (trace-NoReset es b' (sym (acts-read wind_reset r active es b) ∙ h) q)
  trace-NoReset (other e ∷ es) b h (n, q) =
      (n, trace-NoReset es (board_step (other e) b) (sym (acts-beside wind_reset e es b) ∙ h) q)

  acts-begin_board :
      (i : EdgeInput) (es : List BoardEvent) (w : World) (barriers : Barrier → Bool)
      → acts i es (begin_board w barriers)
        ≡ (feed (samples i es) (Debounce.new edge_stable_samples)).1
  unfolding acts begin_board
  acts-begin_board i es w barriers = refl

  module _ (now : ℕ) (c : Controls) (pa pb : ℕ) (locked : Bool) (ha : pa ≤ 255) (hb : pb ≤ 255)
      (barriers : Barrier → Bool) (es : List BoardEvent) where
    abbrev pub started_board : Board
    started_board = begin_board (boot now c (settings_a pa) (settings_b pb) locked) barriers

    abbrev pub after_gust : World
    after_gust = (run_board es started_board).world

    gust_acts : 5 ≤ longest 0 (samples wind_sensor es) → 0 < acts wind_sensor es started_board
    unfolding Debounce.new
    gust_acts h =
        subst (λ n. 0 < n) (sym (acts-begin_board wind_sensor es _ barriers))
          ((reports-press (samples wind_sensor es) (Debounce.new edge_stable_samples) start-IsSound
              refl).1
            h)

    reset_silent : longest 0 (samples wind_reset es) < 5 → acts wind_reset es started_board ≡ 0
    unfolding Debounce.new
    reset_silent h =
        acts-begin_board wind_reset es _ barriers
        ∙ silent _ _
            ((reports-press (samples wind_reset es) (Debounce.new edge_stable_samples) start-IsSound
              refl).0)
            h

    -- With the timing of the installation, on the board with all its tasks of inputs, from their
    -- start on and in any order of their samples, the polls of the gate task and the calls of other
    -- tasks: when the wind guard's pin is low for five samples in a row, and the lock is not reset,
    -- neither by five such samples of the reset input nor by a call of another task, then the wind
    -- lock is engaged at the end and the open command is not dropped. The gate opens; or it closes,
    -- with the command in the slot; or, when it does not move, the command is in the slot or, between
    -- two steps, pending, or light barrier 1 is broken, or both leaves are fully open. The
    -- milliseconds since the device started, times 255, fit in 64 bits.
    pub gust_kept :
        5 ≤ longest 0 (samples wind_sensor es)
        → longest 0 (samples wind_reset es) < 5
        → All (λ e. is_reset_beside e ≡ false) es
        → Short after_gust.now
        → (after_gust.gate.controls.wind_locked ≡ true)
          × NotDropped after_gust.gate.task after_gust.gate
    unfolding begin_board
    gust_kept gust calm beside short =
        let start = boot now c (settings_a pa) (settings_b pb) locked in
        let (before, after, e) = acts-Makes wind_sensor es started_board (gust_acts gust) in
        let silent_trace = trace-NoReset es started_board (reset_silent calm) beside in
        let (_, later) =
          All-behind (λ x. is_reset x ≡ false) before (call call_wind_trigger ∷ after)
            (subst NoReset e silent_trace) in
        let same : after_gust ≡ tripped now c pa pb locked ha hb before after =
          run_board-trace es started_board
          ∙ ap (λ xs. run xs start) e
          ∙ run-append before (call call_wind_trigger ∷ after) start in
        subst (λ w. (w.gate.controls.wind_locked ≡ true) × NotDropped w.gate.task w.gate) (sym same)
          (wind_command_kept now c pa pb locked ha hb before after later
            (subst (λ w. Short w.now) same short))
