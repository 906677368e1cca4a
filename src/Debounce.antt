-- ===== src/Debounce.antt =====
-- gate-core/src/debounce.rs: one event for each press of a bouncing input.
-- `feed` is the loop of `edge_task` in src/physical/inputs.rs over the samples of its pin: it counts
-- how often the action is called.
pub mod Presses
mod Examples
use gate_link.Prelude.{ℕ, suc, ◌+◌, ◌%◌, Bool, true, false, not, ltb, if◌then◌else◌, List, [], ◌∷◌}

pub record Debouncer : Type 0 where
  pub stable_samples : ℕ  -- u8
  pub armed : Bool
  pub stable : ℕ  -- u8

unfoldable pub new : ℕ → Debouncer
new stable_samples = record { stable_samples = stable_samples; armed = true; stable = 0 }

differs : Bool → Bool → Bool
differs true armed = not armed
differs false armed = armed

-- The new state, and whether a press was accepted. `+= 1` on a `u8` wraps.
unfoldable pub sample : Bool → Debouncer → Debouncer × Bool
unfolding differs
sample pressed d =
    let next = (d.stable + 1) % 256 in
    if differs pressed d.armed
    then (record d { stable = 0 }, false)
    else if ltb next d.stable_samples
    then (record d { stable = next }, false)
    else (record d { stable = 0; armed = not d.armed }, d.armed)

abbrev pub tally : Bool → ℕ → ℕ
tally true n = suc n
tally false n = n

unfoldable pub feed : List Bool → Debouncer → Debouncer × ℕ
unfolding sample
feed [] d = (d, 0)
feed (pressed ∷ rest) d =
    let (d', fired) = sample pressed d in let (last, n) = feed rest d' in (last, tally fired n)
