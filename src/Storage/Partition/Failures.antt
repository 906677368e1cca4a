-- ===== src/Storage/Partition/Failures.antt =====
-- src/infra/storage.rs: a partition that cannot be opened.
use gate_link.Prelude.{◌≡◌, refl, ap, none, ok, err}
use gate_link.DeviceConfig.{AppConfig}
use gate_link.Storage.{
  config_kind, gate_state_kind, config_key, gate_state_key, GateState, ok_flatten, load_config,
  save_config, load_gate_state, save_gate_state, erase_config,
}
use gate_link.Storage.Partition.{
  StorageError, partition, partition_not_found, Flash, open_table, found, open_store, fetch_in,
  store_in, remove_in,
}
use gate_link.Storage.Partition.Opened.{opened}

module _ {F T N P S : Type 0} (flash : Flash F T N P S) where
  open flash use {read_partition_table, find_partition}

  -- The ways in which the partition is not there.
  pub data Missing (f : F) : Type 0 where
    unreadable : (p : P) → read_partition_table f ≡ err p → Missing f
    not_looked_up :
        (t : T) (p : P) → read_partition_table f ≡ ok t → find_partition t ≡ err p → Missing f
    absent : (t : T) → read_partition_table f ≡ ok t → find_partition t ≡ ok none → Missing f

  pub Missing-open_store :
      (f : F) → Missing f → (e : StorageError P S) × (open_store flash f ≡ err e)
  unfolding open_store open_table found
  Missing-open_store f (unreadable p e) = (partition p, rw (e, open_table) refl)
  Missing-open_store f (not_looked_up t p e e') =
      (partition p, rw (e, open_table) (rw (e', found) refl))
  Missing-open_store f (absent t e e') =
      (partition_not_found, rw (e, open_table) (rw (e', found) refl))

  -- When the partition cannot be opened, saving and erasing give that error and leave the flash as
  -- it is, and loading gives nothing.
  pub unopened :
      (f : F) (e : StorageError P S)
      → open_store flash f ≡ err e
      → ((c : AppConfig) → save_config (opened flash) c f ≡ (f, err e))
        × ((s : GateState) → save_gate_state (opened flash) s f ≡ (f, err e))
        × (erase_config (opened flash) f ≡ (f, err e))
        × (load_config (opened flash) f ≡ none)
        × (load_gate_state (opened flash) f ≡ none)
  unfolding save_config save_gate_state erase_config load_config load_gate_state ok_flatten opened
      fetch_in store_in remove_in
  unopened f e h = (
    λ c. ap (λ o. store_in flash o config_kind config_key c f) h,
    λ s. ap (λ o. store_in flash o gate_state_kind gate_state_key s f) h,
    ap (λ o. remove_in flash o config_key f) h,
    ap (λ o. ok_flatten (fetch_in flash o config_kind config_key f)) h,
    ap (λ o. ok_flatten (fetch_in flash o gate_state_kind gate_state_key f)) h,
  )
