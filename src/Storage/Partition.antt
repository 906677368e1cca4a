-- ===== src/Storage/Partition.antt =====
-- src/infra/storage.rs: the partition of the records is looked up before each use of them.
-- `Flash` stands for the partition table of esp_bootloader_esp_idf, and the map of sequential_storage
-- over the region of each of its entries.
pub mod Opened
pub mod Failures
mod Examples
use gate_link.Prelude.{
  Done, ℕ, ◌≡◌, ◌≢◌, refl, ap, sym, ◌∙◌, Option, none, some, Result, ok, err, arith,
}
use gate_link.DeviceConfig.{AppConfig}
use gate_link.Storage.{
  Records, Kind, Value, GateState, default_state, ok_flatten, load_config, save_config,
  load_gate_state, save_gate_state, erase_config, unwrap_or_default,
}
use gate_link.Provisioning.{provisioning, mode}
use gate_link.Physical.Persistence.{restored}

pub data StorageError (P S : Type 0) : Type 0 where
  partition : P → StorageError P S
  partition_not_found : StorageError P S
  storage : S → StorageError P S

-- `T` is a partition table and `N` an entry of it. `find_partition` is at the type of our partition.
-- Reading the table does not change the flash, and the records are outside the table.
pub record Flash (F T N P S : Type 0) : Type 0 where
  pub read_partition_table : F → Result P T
  pub find_partition : T → Result P (Option N)
  pub region : N → Records F S
  pub table-store_item :
      (n : N) (k : Kind) (key : ℕ) (v : Value k) (f : F)
      → read_partition_table ((region n).store_item k key v f).0 ≡ read_partition_table f
  pub table-remove_item :
      (n : N) (key : ℕ) (f : F)
      → read_partition_table ((region n).remove_item key f).0 ≡ read_partition_table f

unfoldable pub map_err : {S E A : Type 0} → (S → E) → Result S A → Result E A
map_err g (ok a) = ok a
map_err g (err e) = err (g e)

module _ {F T N P S : Type 0} (flash : Flash F T N P S) where
  open flash use {read_partition_table, find_partition, region}

  found : Result P (Option N) → Result (StorageError P S) N
  found (err p) = err (partition p)
  found (ok none) = err partition_not_found
  found (ok (some n)) = ok n

  open_table : Result P T → Result (StorageError P S) N
  unfolding found
  open_table (err p) = err (partition p)
  open_table (ok t) = found (find_partition t)

  -- `open`
  unfoldable pub open_store : F → Result (StorageError P S) N
  unfolding open_table
  open_store f = open_table (read_partition_table f)

  unfoldable pub fetch_in :
      Result (StorageError P S) N
      → (k : Kind) → ℕ
      → F
      → Result (StorageError P S) (Option (Value k))
  unfolding map_err
  fetch_in (err e) k key f = err e
  fetch_in (ok n) k key f = map_err storage ((region n).fetch_item k key f)

  unfoldable pub store_in :
      Result (StorageError P S) N
      → (k : Kind) → ℕ
      → Value k
      → F
      → F × Result (StorageError P S) Done
  unfolding map_err
  store_in (err e) k key v f = (f, err e)
  store_in (ok n) k key v f =
      let (f', r) = (region n).store_item k key v f in (f', map_err storage r)

  unfoldable pub remove_in :
      Result (StorageError P S) N → ℕ → F → F × Result (StorageError P S) Done
  unfolding map_err
  remove_in (err e) key f = (f, err e)
  remove_in (ok n) key f = let (f', r) = (region n).remove_item key f in (f', map_err storage r)
