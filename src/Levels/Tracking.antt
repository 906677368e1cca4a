-- ===== src/Levels/Tracking.antt =====
-- src/physical/inputs.rs: a barrier's state and the readings of its pin.
use gate_link.Prelude.{◌≡◌, refl, ◌∙◌, Bool, true, false, List, [], ◌∷◌, All, arith}
use gate_link.Controls.{
  Controls, Call, call_barrier1_set, call_barrier2_set, apply_call, barrier1_set, barrier2_set,
}
use gate_link.Levels.{
  Barrier, light_barrier1, light_barrier2, setter, Level, begin_level, level_round, LevelEvent,
  sampled, called, follow,
}

abbrev pub active_in : Barrier → Controls → Bool
active_in light_barrier1 c = c.barrier1_active
active_in light_barrier2 c = c.barrier2_active

-- Not a call of the barrier's own setter, which only its task makes.
abbrev pub is_foreign : Barrier → Call → Bool
is_foreign light_barrier1 (call_barrier1_set _) = false
is_foreign light_barrier2 (call_barrier2_set _) = false
is_foreign _ _ = true

abbrev pub IsForeign : Barrier → LevelEvent → Type 0
IsForeign b (sampled _) = Unit
IsForeign b (called k) = is_foreign b k ≡ true

-- The last of the readings.
abbrev pub last_reading : Bool → List LevelEvent → Bool
last_reading active [] = active
last_reading active (sampled now ∷ es) = last_reading now es
last_reading active (called _ ∷ es) = last_reading active es

Tracks : Barrier → Bool → Level → Type 0
Tracks b active l = (l.last_active ≡ active) × (active_in b l.controls ≡ active)

setter-sets :
    (b : Barrier) (active : Bool) (c : Controls) → active_in b (setter b active c) ≡ active
unfolding setter barrier1_set barrier2_set
setter-sets light_barrier1 active c = ground arith
setter-sets light_barrier2 active c = refl

foreign_keeps :
    (b : Barrier) (k : Call) (c : Controls)
    → is_foreign b k ≡ true
    → active_in b (apply_call k c) ≡ active_in b c
unfolding apply_call
foreign_keeps light_barrier1 k c h = ground arith
foreign_keeps light_barrier2 k c h = ground arith

level_round-Tracks :
    (b : Barrier) (last active : Bool) (l : Level)
    → Tracks b last l
    → Tracks b active (level_round b active l)
unfolding level_round Tracks
level_round-Tracks b last active l h = ground (arith, setter-sets b active l.controls)

follow-Tracks :
    (b : Barrier) (active : Bool) (es : List LevelEvent) (l : Level)
    → All (IsForeign b) es
    → Tracks b active l
    → Tracks b (last_reading active es) (follow b es l)
unfolding follow Tracks
follow-Tracks b active [] l f h = h
follow-Tracks b active (sampled now ∷ es) l f h =
    follow-Tracks b now es (level_round b now l) f.1 (level_round-Tracks b active now l h)
follow-Tracks b active (called k ∷ es) l f h =
    follow-Tracks b active es _ f.1 (h.0, foreign_keeps b k l.controls f.0 ∙ h.1)

-- Whatever the other tasks call in between, `Controls` has a light barrier as interrupted exactly
-- when its pin read so last, from the first reading on. The setter of a barrier is called by its
-- own task only.
pub follow-last_reading :
    (b : Barrier) (first : Bool) (es : List LevelEvent) (c : Controls)
    → All (IsForeign b) es
    → active_in b (follow b es (begin_level b first c)).controls ≡ last_reading first es
unfolding begin_level Tracks
follow-last_reading b first es c f =
    (follow-Tracks b first es (begin_level b first c) f (refl, setter-sets b first c)).1
