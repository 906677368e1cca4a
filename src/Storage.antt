-- ===== src/Storage.antt =====
-- app-core/src/storage.rs and src/infra/storage.rs: the two records kept in flash.
-- `Records` stands for the `MapStorage` of sequential_storage over a flash region, with the postcard
-- encoding of the two record types and the partition lookup that opens the region.
pub mod Independence
pub mod Memory
pub mod Partition
use gate_link.Prelude.{
  Done, ℕ, ◌≡◌, ◌≢◌, Bool, true, false, ◌&&◌, ◌==◌, Option, none, some, Result, ok, err,
}
use gate_link.DeviceConfig.{AppConfig}

abbrev pub config_key : ℕ
config_key = 1

abbrev pub gate_state_key : ℕ
gate_state_key = 2

pub record GateState : Type 0 where
  pub leaf_a_position : ℕ  -- u8
  pub leaf_b_position : ℕ  -- u8
  pub wind_locked : Bool

abbrev pub default_state : GateState
default_state = record { leaf_a_position = 0; leaf_b_position = 0; wind_locked = false }

-- The types of a record's value.
pub data Kind : Type 0 where
  config_kind gate_state_kind : Kind

abbrev pub Value : Kind → Type 0
Value config_kind = AppConfig
Value gate_state_kind = GateState

-- A flash, and the operations of the record map on it. A failed `store_item` or `remove_item` leaves
-- what can be fetched as it was, and each touches its own key only.
pub record Records (F E : Type 0) : Type 0 where
  pub fetch_item : (k : Kind) → ℕ → F → Result E (Option (Value k))
  pub store_item : (k : Kind) → ℕ → Value k → F → F × Result E Done
  pub remove_item : ℕ → F → F × Result E Done
  pub fetch-store_item :
      (k : Kind) (key : ℕ) (v : Value k) (f : F) (b : Done)
      → (store_item k key v f).1 ≡ ok b
      → fetch_item k key (store_item k key v f).0 ≡ ok (some v)
  pub fetch-store_failed :
      (k : Kind) (key : ℕ) (v : Value k) (f : F) (e : E)
      → (store_item k key v f).1 ≡ err e
      → fetch_item k key (store_item k key v f).0 ≡ fetch_item k key f
  pub fetch-store_other :
      (k l : Kind) (key other : ℕ) (v : Value k) (f : F)
      → key ≢ other
      → fetch_item l other (store_item k key v f).0 ≡ fetch_item l other f
  pub fetch-remove_item :
      (k : Kind) (key : ℕ) (f : F) (b : Done)
      → (remove_item key f).1 ≡ ok b
      → fetch_item k key (remove_item key f).0 ≡ ok none
  pub fetch-remove_other :
      (k : Kind) (key other : ℕ) (f : F)
      → key ≢ other
      → fetch_item k other (remove_item key f).0 ≡ fetch_item k other f

-- `ok().flatten()`
ok_flatten {ℓ κ} : {E : Type ℓ} {A : Type κ} → Result E (Option A) → Option A
ok_flatten (ok o) = o
ok_flatten (err _) = none

module _ {F E : Type 0} (records : Records F E) where
  open records use {fetch_item, store_item, remove_item}

  unfoldable pub load_config : F → Option AppConfig
  unfolding ok_flatten
  load_config f = ok_flatten (fetch_item config_kind config_key f)

  unfoldable pub save_config : AppConfig → F → F × Result E Done
  save_config c f = store_item config_kind config_key c f

  unfoldable pub load_gate_state : F → Option GateState
  unfolding ok_flatten
  load_gate_state f = ok_flatten (fetch_item gate_state_kind gate_state_key f)

  unfoldable pub save_gate_state : GateState → F → F × Result E Done
  save_gate_state s f = store_item gate_state_kind gate_state_key s f

  unfoldable pub erase_config : F → F × Result E Done
  erase_config f = remove_item config_key f

-- `unwrap_or_default()` in `main`.
unfoldable pub unwrap_or_default : Option GateState → GateState
unwrap_or_default (some s) = s
unwrap_or_default none = default_state
