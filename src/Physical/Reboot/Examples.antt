-- ===== src/Physical/Reboot/Examples.antt =====
-- A gate that is booted from a flash in memory, and the theorems about it.
use gate_link.Prelude.{if◌then◌else◌, none, some, ◌≡◌, ◌⊎◌, refl, true, false, ◌∷◌, []}
use gate_link.Time.{Ticks, micros}
use gate_link.Controls.{Snapshot, open_gate}
use gate_link.Controls
use gate_link.Gate
use gate_link.Storage.{unwrap_or_default, load_gate_state, save_gate_state}
use gate_link.Storage.Memory.{Memory, memory, blank}
use gate_link.Physical.Persistence.{
  Kept, to_gate_state, persist, persist_all, restored, boot_from, begin_task,
}
use gate_link.Physical.Reboot.{Failed, persist_all-restored, boot_from-snapshot}

instance abbrev clock : Ticks
clock = micros

abbrev half_open : Snapshot
half_open = record { leaf_a_position = 100; leaf_b_position = 90; wind_locked = true }

abbrev opened : Snapshot
opened = record { leaf_a_position = 255; leaf_b_position = 255; wind_locked = false }

abbrev turned_on : Kept Memory
turned_on = persist_all memory (opened ∷ []) (begin_task memory 0 Controls.new blank)

persist_all-restored_example :
    (restored memory (persist memory half_open turned_on).flash
      ≡ (persist memory half_open turned_on).saved)
    × (((persist memory half_open turned_on).saved ≡ to_gate_state half_open)
        ⊎ Failed memory half_open turned_on)
persist_all-restored_example =
    persist_all-restored memory 0 Controls.new blank (opened ∷ []) half_open

abbrev kept : Memory
kept = (save_gate_state memory (to_gate_state half_open) blank).0

kept_state : restored memory kept ≡ to_gate_state half_open
unfolding memory blank restored unwrap_or_default load_gate_state save_gate_state to_gate_state
kept_state = refl

boot_from-snapshot_example :
    (Gate.snapshot (boot_from memory 0 Controls.new kept).gate ≡ half_open)
    × ((boot_from memory 0 Controls.new kept).gate.pending
        ≡ (if half_open.wind_locked then some open_gate else none))
boot_from-snapshot_example = boot_from-snapshot memory 0 Controls.new kept half_open kept_state
