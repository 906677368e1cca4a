-- ===== src/Storage/Partition/Examples.antt =====
-- src/infra/storage.rs: a flash with the partition, and one without.
use gate_link.Prelude.{Done, ◌≡◌, refl, Bool, some, ok, Option}
use gate_link.Storage.{GateState, default_state, load_gate_state, save_gate_state}
use gate_link.Storage.Memory.{Memory, memory, blank}
use gate_link.Storage.Independence.{load-save_gate_state}
use gate_link.Storage.Partition.{Flash, found, open_table, open_store, store_in, map_err}
use gate_link.Storage.Partition.Opened.{opened}

-- A partition table is whether it has the partition.
abbrev flash : Option Done → Flash Memory (Option Done) Done Bool Bool
flash entry = record {
  read_partition_table = λ f. ok entry;
  find_partition = λ t. ok t;
  region = λ n. memory;
  table-store_item = λ n k key v f. refl;
  table-remove_item = λ n key f. refl;
}

half_open : GateState
half_open = record default_state { leaf_a_position = 100 }

saved :
    load_gate_state
      (opened (flash (some tt)))
      (save_gate_state (opened (flash (some tt))) half_open blank).0
    ≡ some half_open
unfolding save_gate_state opened open_store open_table found store_in memory map_err
saved = load-save_gate_state (opened (flash (some tt))) half_open blank tt refl
