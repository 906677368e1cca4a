-- ===== src/Levels/Examples.antt =====
-- A light barrier that is interrupted and cleared, and the theorem about it.
use gate_link.Prelude.{◌≡◌, refl, true, false, List, [], ◌∷◌}
use gate_link.Controls.{call_open, call_barrier2_set}
use gate_link.Controls
use gate_link.Levels.{light_barrier1, begin_level, follow, LevelEvent, sampled, called}
use gate_link.Levels.Tracking.{active_in, last_reading, follow-last_reading}

abbrev passing : List LevelEvent
passing = sampled true ∷ called call_open ∷ called (call_barrier2_set true) ∷ sampled false ∷ []

follow-last_reading_example :
    active_in light_barrier1
      (follow light_barrier1 passing (begin_level light_barrier1 false Controls.new)).controls
    ≡ last_reading false passing
follow-last_reading_example =
    follow-last_reading light_barrier1 false passing Controls.new (tt, (refl, (refl, (tt, tt))))
