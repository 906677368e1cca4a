-- ===== src/Firmware/Boots.antt =====
-- src/bin/main.rs: what a boot does first, and two boots in a row.
use gate_link.Prelude.{
  ℕ, ◌≡◌, refl, Bool, true, false, Option, none, some, List, [], ◌∷◌, ◌++◌, map, All, arith,
}
use gate_link.Time.{Ticks}
use gate_link.DeviceConfig.{AppConfig}
use gate_link.Storage.{Records, GateState, load_gate_state, load_config, unwrap_or_default}
use gate_link.Provisioning.{Mode, station, provisioning, mode}
use gate_link.ResetButton.{held, check_and_maybe_erase}
use gate_link.Physical.Persistence.{restored}
use gate_link.Levels.{Barrier, light_barrier1, light_barrier2}
use gate_link.Physical.{MotorSettings}
use gate_link.Physical.Config
use gate_link.Physical.Inputs.{
  EdgeInput, push_button, radio_button, wind_sensor, wind_reset, barrier_bypass_button,
}
use gate_link.Firmware.{
  Output, leaf_a_open, leaf_a_close, leaf_b_open, leaf_b_close, warning_light, gate_with, Radio,
  Effect, button_checked, config_loaded, gate_state_loaded, spawned, wifi_started, wifi_configured,
  config_saved, preceded_by, outputs, local_tasks, await_form, run_station_mode,
  run_provisioning_mode, run_mode, start_network, start_tasks, main,
}
use gate_link.Firmware.Observed.{
  before_network, from_network, driven_first, gates, is_edge_task, is_level_task, is_light_task,
  times, stored,
}
use gate_link.Firmware.Pools.{
  Pool, net_pool, dhcp_pool, http_pool, wifi_pool, mqtt_pool, handler_pool, discovery_pool, pool_of,
}

-- A task of the network.
abbrev pub IsNetworkPool : Pool → Type 0
IsNetworkPool net_pool = Unit
IsNetworkPool dhcp_pool = Unit
IsNetworkPool http_pool = Unit
IsNetworkPool wifi_pool = Unit
IsNetworkPool mqtt_pool = Unit
IsNetworkPool handler_pool = Unit
IsNetworkPool discovery_pool = Unit
IsNetworkPool _ = ⊥

-- What may come once the network is started.
abbrev pub IsNetwork : Effect → Type 0
IsNetwork (spawned t) = IsNetworkPool (pool_of t)
IsNetwork wifi_started = Unit
IsNetwork (wifi_configured _) = Unit
IsNetwork (config_saved _) = Unit
IsNetwork _ = ⊥

module _ ⦃ticks : Ticks⦄ where
  -- The gate task that a boot spawns when `kept` is the stored gate state.
  abbrev pub gate_of : Option GateState → MotorSettings × MotorSettings × Bool
  gate_of kept = (
    record { timing = Config.leaf_a; initial_position = stored kept 0 (λ s. s.leaf_a_position) },
    record { timing = Config.leaf_b; initial_position = stored kept 0 (λ s. s.leaf_b_position) },
    stored kept false (λ s. s.wind_locked),
  )

  -- Before the network, each output is driven low ahead of all but outputs, one gate task is spawned,
  -- with what is stored, and one task for each input and for the light; from then on, only what
  -- belongs to the network comes.
  abbrev pub LocalFirst : Option GateState → List Effect → Type 0
  LocalFirst kept es =
      ((o : Output) → driven_first o (before_network es) ≡ true)
      × (gates (before_network es) ≡ gate_of kept ∷ [])
      × ((i : EdgeInput) → times (is_edge_task i) (before_network es) ≡ 1)
      × ((b : Barrier) → times (is_level_task b) (before_network es) ≡ 1)
      × (times is_light_task (before_network es) ≡ 1)
      × All IsNetwork (from_network es)

  abbrev pub begun : GateState → List Effect → List Effect
  begun s later =
      outputs
      ++ button_checked
        ∷ config_loaded
        ∷ gate_state_loaded
        ∷ (map spawned (local_tasks s) ++ wifi_started ∷ later)

  outputs_first :
      (o : Output) (s : GateState) (later : List Effect)
      → driven_first o (before_network (begun s later)) ≡ true
  unfolding local_tasks
  outputs_first leaf_a_open s later = refl
  outputs_first leaf_a_close s later = refl
  outputs_first leaf_b_open s later = refl
  outputs_first leaf_b_close s later = refl
  outputs_first warning_light s later = refl

  inputs_once :
      (i : EdgeInput) (s : GateState) (later : List Effect)
      → times (is_edge_task i) (before_network (begun s later)) ≡ 1
  unfolding local_tasks
  inputs_once push_button s later = refl
  inputs_once radio_button s later = refl
  inputs_once wind_sensor s later = refl
  inputs_once wind_reset s later = refl
  inputs_once barrier_bypass_button s later = refl

  barriers_once :
      (b : Barrier) (s : GateState) (later : List Effect)
      → times (is_level_task b) (before_network (begun s later)) ≡ 1
  unfolding local_tasks
  barriers_once light_barrier1 s later = refl
  barriers_once light_barrier2 s later = refl

  gates-begun :
      (kept : Option GateState) (later : List Effect)
      → gates (before_network (begun (unwrap_or_default kept) later)) ≡ gate_of kept ∷ []
  unfolding local_tasks gate_with unwrap_or_default
  gates-begun none later = refl
  gates-begun (some s) later = refl

  begun-LocalFirst :
      (kept : Option GateState) (later : List Effect)
      → All IsNetwork (wifi_started ∷ later)
      → LocalFirst kept (begun (unwrap_or_default kept) later)
  unfolding local_tasks
  begun-LocalFirst kept later network =
      let s = unwrap_or_default kept in
      (
        λ o. outputs_first o s later,
        gates-begun kept later,
        λ i. inputs_once i s later,
        λ b. barriers_once b s later,
        refl,
        network,
      )

module _ {F E W : Type 0} (records : Records F E) (radio : Radio W) where
  run_mode-Network :
      (m : Mode) (submitted : Option AppConfig) (f : F)
      → All IsNetwork (run_mode records radio m submitted f).effects
  unfolding run_mode run_station_mode run_provisioning_mode await_form preceded_by pool_of
  run_mode-Network (station cfg) submitted f = ground arith
  run_mode-Network provisioning submitted f = ground arith

  start_network-Network :
      (app_config submitted : Option AppConfig) (f : F)
      → All IsNetwork (start_network records radio app_config submitted f).effects
  unfolding start_network preceded_by
  start_network-Network app_config submitted f =
      ground (arith, run_mode-Network (mode app_config) submitted f)

  module _ ⦃ticks : Ticks⦄ where
    -- Once the boot button is checked, whatever the flash, the form and the radio driver give: before
    -- the network is started, a boot has driven each output, the four of the relays and the one of the
    -- light, low, ahead of all but outputs; it has spawned one gate task, each leaf with its timing and
    -- its stored position, closed if none is stored, and with the stored wind lock, off if none is
    -- stored; and it has spawned one task for each input, for each light barrier and for the warning
    -- light. From the start of the network on, only what belongs to the network comes.
    pub local_control_first :
        (readings : List (Bool × ℕ)) (submitted : Option AppConfig) (f : F) (erase : Bool)
        → held readings ≡ some erase
        → LocalFirst
            (load_gate_state records (check_and_maybe_erase records readings f))
            (main records radio readings submitted f).effects
    unfolding main start_tasks start_network preceded_by restored
    local_control_first readings submitted f erase h =
        let f' = check_and_maybe_erase records readings f in
        let net = start_network records radio (load_config records f') submitted f' in
        rw (h, main)
          (begun-LocalFirst (load_gate_state records f') _
            (start_network-Network (load_config records f') submitted f'))
