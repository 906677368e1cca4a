-- ===== src/Physical/Persistence.antt =====
-- src/physical/gate.rs: the loop of the gate task behind `step`, which keeps the flash up to date, and
-- src/bin/main.rs: the start from what is in the flash.
use gate_link.Prelude.{
  Done, ℕ, Bool, true, false, not, ◌&&◌, ◌==◌, if◌then◌else◌, List, [], ◌∷◌, Result, ok, err,
}
use gate_link.Time.{Ticks}
use gate_link.Controls.{Controls, Snapshot}
use gate_link.Storage.{Records, GateState, load_gate_state, save_gate_state, unwrap_or_default}
use gate_link.Gate
use gate_link.Gate.World.{World}
use gate_link.Physical.{boot}
use gate_link.Physical.Config

unfoldable pub to_gate_state : Snapshot → GateState
to_gate_state s = record {
  leaf_a_position = s.leaf_a_position;
  leaf_b_position = s.leaf_b_position;
  wind_locked = s.wind_locked;
}

same_bool : Bool → Bool → Bool
same_bool true b = b
same_bool false b = not b

unfoldable pub same_state : GateState → GateState → Bool
unfolding same_bool
same_state s t =
    s.leaf_a_position == t.leaf_a_position
    && (s.leaf_b_position == t.leaf_b_position && same_bool s.wind_locked t.wind_locked)

-- The flash, and the local `saved`.
pub record Kept (F : Type 0) : Type 0 where
  pub flash : F
  pub saved : GateState

module _ {F E : Type 0} (records : Records F E) where
  unfoldable pub outcome : GateState → F × Result E Done → Kept F → Kept F
  outcome state (f, ok _) k = record { flash = f; saved = state }
  outcome state (f, err _) k = record k { flash = f }

  -- The body of the loop, once `step` has returned the snapshot.
  unfoldable pub persist : Snapshot → Kept F → Kept F
  unfolding outcome
  persist snapshot k =
      let state = to_gate_state snapshot in
      if same_state state k.saved
      then k
      else outcome state (save_gate_state records state k.flash) k

  unfoldable pub persist_all : List Snapshot → Kept F → Kept F
  unfolding persist
  persist_all [] k = k
  persist_all (s ∷ ss) k = persist_all ss (persist s k)

  unfoldable pub restored : F → GateState
  restored f = unwrap_or_default (load_gate_state records f)

  module _ ⦃ticks : Ticks⦄ where
    unfoldable pub boot_from : ℕ → Controls → F → World
    boot_from now controls f =
        let s = restored f in
        boot now controls (record { timing = Config.leaf_a; initial_position = s.leaf_a_position })
          (record { timing = Config.leaf_b; initial_position = s.leaf_b_position }) s.wind_locked

    -- The locals of the task before its loop.
    unfoldable pub begin_task : ℕ → Controls → F → Kept F
    begin_task now controls f = record {
      flash = f;
      saved = to_gate_state (Gate.snapshot (boot_from now controls f).gate);
    }
