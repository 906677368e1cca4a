-- ===== src/Firmware.antt =====
-- src/bin/main.rs, and the `configure` functions of src/infra/wifi_sta.rs and src/infra/wifi_ap.rs: a
-- boot, as the list of what it does, first to last.
-- `Radio` stands for what the driver of esp_radio answers.
pub mod Pools
pub mod Observed
pub mod Boots
pub mod Provisioned
pub mod Unopened
mod Examples
use gate_link.Prelude.{
  Done, ℕ, Bool, true, false, if◌then◌else◌, Option, none, some, List, [], ◌∷◌, ◌++◌, map, String,
  Result, ok, err,
}
use gate_link.Time.{Ticks}
use gate_link.Levels.{Barrier, light_barrier1, light_barrier2}
use gate_link.Physical.{MotorSettings}
use gate_link.Physical.Config
use gate_link.Physical.Inputs.{
  EdgeInput, push_button, radio_button, wind_sensor, wind_reset, barrier_bypass_button,
}
use gate_link.Physical.Persistence.{restored}
use gate_link.DeviceConfig.{AppConfig, is_empty}
use gate_link.Storage.{Records, GateState, load_config}
use gate_link.ResetButton.{held, check_and_maybe_erase}
use gate_link.Provisioning.{Mode, station, provisioning, mode, provision}

pub data Output : Type 0 where
  leaf_a_open leaf_a_close leaf_b_open leaf_b_close warning_light : Output

-- The tasks, with what they are spawned with.
pub data SpawnedTask : Type 0 where
  run_gate : MotorSettings → MotorSettings → Bool → SpawnedTask
  run_edge : EdgeInput → SpawnedTask
  run_level : Barrier → SpawnedTask
  run_warning_light : SpawnedTask
  run_net run_dhcp_server run_http run_wifi_connection : SpawnedTask
  run_mqtt_client : AppConfig → SpawnedTask
  run_mqtt_handler run_discovery : SpawnedTask

-- `open_network` is whether the authentication method is set to none; otherwise it is the default.
pub record StationConfig : Type 0 where
  pub ssid : String
  pub password : String
  pub open_network : Bool

pub data WifiConfig : Type 0 where
  station_config : StationConfig → WifiConfig
  access_point_config : String → WifiConfig

pub record Radio (W : Type 0) : Type 0 where
  pub wifi_new : Result W Done
  pub set_config : WifiConfig → Result W Done

pub data Effect : Type 0 where
  driven_low : Output → Effect
  button_checked config_loaded gate_state_loaded : Effect
  spawned : SpawnedTask → Effect
  wifi_started : Effect
  wifi_configured : WifiConfig → Effect
  config_saved : AppConfig → Effect

-- Where `main` stays: in `idle_forever`, waiting for the button or the form, or in the reset.
pub data End : Type 0 where
  idle waiting software_reset : End

pub record Boot (F : Type 0) : Type 0 where
  pub effects : List Effect
  pub flash : F
  pub last : End

unfoldable pub preceded_by : {F : Type 0} → List Effect → Boot F → Boot F
preceded_by es b = record b { effects = es ++ b.effects }

abbrev pub ap_ssid : String
ap_ssid = "mqtt-gate-setup"

unfoldable pub sta_config : AppConfig → WifiConfig
sta_config cfg = station_config (record {
  ssid = cfg.wifi_ssid;
  password = cfg.wifi_password;
  open_network = is_empty cfg.wifi_password;
})

abbrev pub ap_config : WifiConfig
ap_config = access_point_config ap_ssid

-- The outputs of the relays and of the warning light are made first.
abbrev pub outputs : List Effect
outputs =
    map driven_low (leaf_a_open ∷ leaf_a_close ∷ leaf_b_open ∷ leaf_b_close ∷ warning_light ∷ [])

module _ ⦃ticks : Ticks⦄ where
  unfoldable pub gate_with : GateState → SpawnedTask
  gate_with s =
      run_gate (record { timing = Config.leaf_a; initial_position = s.leaf_a_position })
        (record { timing = Config.leaf_b; initial_position = s.leaf_b_position }) s.wind_locked

  unfoldable pub local_tasks : GateState → List SpawnedTask
  unfolding gate_with
  local_tasks s =
      gate_with s
      ∷ run_edge push_button
      ∷ run_edge radio_button
      ∷ run_edge wind_sensor
      ∷ run_edge wind_reset
      ∷ run_level light_barrier1
      ∷ run_level light_barrier2
      ∷ run_edge barrier_bypass_button
      ∷ run_warning_light
      ∷ []

abbrev pub station_tasks : AppConfig → List SpawnedTask
station_tasks cfg =
    run_net ∷ run_wifi_connection ∷ run_mqtt_client cfg ∷ run_mqtt_handler ∷ run_discovery ∷ []

abbrev pub provisioning_tasks : List SpawnedTask
provisioning_tasks = run_net ∷ run_dhcp_server ∷ run_http ∷ []

module _ {F E W : Type 0} (records : Records F E) (radio : Radio W) where
  unfoldable pub run_station_mode : AppConfig → F → Boot F
  run_station_mode cfg f =
      preceded_by (wifi_configured (sta_config cfg) ∷ [])
        (elim (radio.set_config (sta_config cfg)) [
          | err _ ↦ record { effects = []; flash = f; last = idle }
          | ok _ ↦ record { effects = map spawned (station_tasks cfg); flash = f; last = idle }
        ])

  -- The argument is what the form submits, if it ever does.
  unfoldable pub await_form : Option AppConfig → F → Boot F
  await_form none f = record { effects = []; flash = f; last = waiting }
  await_form (some cfg) f = record {
    effects = config_saved cfg ∷ [];
    flash = provision records cfg f;
    last = software_reset;
  }

  unfoldable pub run_provisioning_mode : Option AppConfig → F → Boot F
  unfolding await_form
  run_provisioning_mode submitted f =
      preceded_by (wifi_configured ap_config ∷ []) (elim (radio.set_config ap_config) [
        | err _ ↦ record { effects = []; flash = f; last = idle }
        | ok _ ↦ preceded_by (map spawned provisioning_tasks) (await_form submitted f)
      ])

  run_mode : Mode → Option AppConfig → F → Boot F
  unfolding run_station_mode run_provisioning_mode
  run_mode (station cfg) submitted f = run_station_mode cfg f
  run_mode provisioning submitted f = run_provisioning_mode submitted f

  unfoldable pub start_network : Option AppConfig → Option AppConfig → F → Boot F
  unfolding run_mode
  start_network app_config submitted f = preceded_by (wifi_started ∷ []) (elim radio.wifi_new [
    | err _ ↦ record { effects = []; flash = f; last = idle }
    | ok _ ↦ run_mode (mode app_config) submitted f
  ])

  module _ ⦃ticks : Ticks⦄ where
    -- From the flash on.
    unfoldable pub start_tasks : Option AppConfig → F → Boot F
    unfolding start_network local_tasks
    start_tasks submitted f =
        preceded_by
          (button_checked
            ∷ config_loaded
            ∷ gate_state_loaded
            ∷ map spawned (local_tasks (restored records f)))
          (start_network (load_config records f) submitted f)

    -- The arguments are the readings of the boot button and the submitted form.
    unfoldable pub main : List (Bool × ℕ) → Option AppConfig → F → Boot F
    unfolding start_tasks
    main readings submitted f = preceded_by outputs (elim (held readings) [
      | none ↦ record { effects = []; flash = f; last = waiting }
      | some _ ↦ start_tasks submitted (check_and_maybe_erase records readings f)
    ])
