-- ===== src/Storage/Independence.antt =====
-- app-core/src/storage.rs: what saving or erasing one record leaves in the flash.
use gate_link.Prelude.{Done, ℕ, ◌≡◌, ◌≢◌, ap, none, some, ok, err, arith}
use gate_link.DeviceConfig.{AppConfig}
use gate_link.Storage.{
  Records, GateState, config_kind, gate_state_kind, config_key, gate_state_key, ok_flatten,
  load_config, save_config, load_gate_state, save_gate_state, erase_config,
}

keys_differ : ◌≢◌ {A = ℕ} config_key gate_state_key
keys_differ = omega arith

keys_differ_too : ◌≢◌ {A = ℕ} gate_state_key config_key
keys_differ_too = omega arith

module _ {F E : Type 0} (records : Records F E) where
  pub saved_config :
      (c : AppConfig) (f : F) (b : Done)
      → (save_config records c f).1 ≡ ok b
      → load_config records (save_config records c f).0 ≡ some c
  unfolding load_config save_config ok_flatten
  saved_config c f b h = ap ok_flatten (records.fetch-store_item config_kind config_key c f b h)

  pub erased_config :
      (f : F) (b : Done)
      → (erase_config records f).1 ≡ ok b
      → load_config records (erase_config records f).0 ≡ none
  unfolding load_config erase_config ok_flatten
  erased_config f b h = ap ok_flatten (records.fetch-remove_item config_kind config_key f b h)

  pub kept_gate_state :
      (f : F) → load_gate_state records (erase_config records f).0 ≡ load_gate_state records f
  unfolding load_gate_state erase_config
  kept_gate_state f =
      ap ok_flatten
        (records.fetch-remove_other gate_state_kind config_key gate_state_key f keys_differ)

  pub kept-save_config :
      (c : AppConfig) (f : F)
      → load_gate_state records (save_config records c f).0 ≡ load_gate_state records f
  unfolding load_gate_state save_config
  kept-save_config c f = ap ok_flatten (
      records.fetch-store_other config_kind gate_state_kind config_key gate_state_key c f
        keys_differ)

  -- After the configuration is saved, with success, loading gives it; after it is erased, with
  -- success, loading gives none; and in both cases the gate state that loading gives is unchanged.
  config_saved_and_erased :
      (c : AppConfig) (f : F) (saved erased : Done)
      → (save_config records c f).1 ≡ ok saved
      → (erase_config records f).1 ≡ ok erased
      → (load_config records (save_config records c f).0 ≡ some c)
        × (load_config records (erase_config records f).0 ≡ none)
        × (load_gate_state records (save_config records c f).0 ≡ load_gate_state records f)
        × (load_gate_state records (erase_config records f).0 ≡ load_gate_state records f)
  unfolding load_config save_config load_gate_state erase_config ok_flatten
  config_saved_and_erased c f saved erased s e =
      (saved_config c f saved s, erased_config f erased e, kept-save_config c f, kept_gate_state f)

  pub load-save_gate_state :
      (s : GateState) (f : F) (b : Done)
      → (save_gate_state records s f).1 ≡ ok b
      → load_gate_state records (save_gate_state records s f).0 ≡ some s
  unfolding load_gate_state save_gate_state
  load-save_gate_state s f b h =
      ap ok_flatten (records.fetch-store_item gate_state_kind gate_state_key s f b h)

  pub load-save_failed :
      (s : GateState) (f : F) (e : E)
      → (save_gate_state records s f).1 ≡ err e
      → load_gate_state records (save_gate_state records s f).0 ≡ load_gate_state records f
  unfolding load_gate_state save_gate_state
  load-save_failed s f e h =
      ap ok_flatten (records.fetch-store_failed gate_state_kind gate_state_key s f e h)

  pub config-save_gate_state :
      (s : GateState) (f : F)
      → load_config records (save_gate_state records s f).0 ≡ load_config records f
  unfolding load_config save_gate_state
  config-save_gate_state s f = ap ok_flatten (
      records.fetch-store_other gate_state_kind config_kind gate_state_key config_key s f
        keys_differ_too)
