-- ===== src/Firmware/Examples.antt =====
-- src/bin/main.rs: boots on concrete readings, forms and radios.
use gate_link.Prelude.{
  ℕ, ◌≤◌, ◌≡◌, refl, map, Option, Done, Bool, true, false, none, some, List, [], ◌∷◌, All, ok, err,
}
use gate_link.Time.{Ticks, micros}
use gate_link.DeviceConfig.{AppConfig, SubmittedForm, into_config}
use gate_link.DeviceConfig.Acceptance.{form_of}
use gate_link.Storage.{load_config, load_gate_state, save_config}
use gate_link.Storage.Memory.{Memory, memory, blank}
use gate_link.ResetButton.{check_and_maybe_erase, held}
use gate_link.Provisioning.{submit, mode}
use gate_link.Firmware.{
  access_point_config, Radio, software_reset, idle, preceded_by, start_network, start_tasks, main,
}
use gate_link.Firmware.Pools.{Pool, edge_pool, pool_size, spawns, spawns-main-le}
use gate_link.Firmware.Boots.{LocalFirst, local_control_first}
use gate_link.Firmware.Observed.{before_network, gates, mqtt_clients, wifi_configs}
use gate_link.Firmware.Provisioned.{in_station, in_provisioning, network_of, provisioned_boots}
use gate_link.Firmware.Unopened.{Startup, boot_of, after_boots, always_provisions}
use gate_link.Storage.Partition.{Flash}
use gate_link.Storage.Partition.Failures.{absent}
use gate_link.Physical.Config

instance abbrev clock : Ticks
clock = micros

abbrev radio : Radio Bool
radio = record { wifi_new = ok tt; set_config = λ c. ok tt }

abbrev dead_radio : Radio Bool
dead_radio = record { wifi_new = err true; set_config = λ c. err true }

abbrev form : SubmittedForm
form = record {
  ssid = "cottage";
  wifi_password = "secret";
  mqtt_host = "broker.lan";
  mqtt_port = 1883;
  mqtt_username = "gate";
  mqtt_password = "";
}

abbrev cottage : AppConfig
cottage = record {
  wifi_ssid = "cottage";
  wifi_password = "secret";
  mqtt_host = "broker.lan";
  mqtt_port = 1883;
  mqtt_username = some "gate";
  mqtt_password = none;
}

form_accepted : (submit form).0 ≡ some cottage
unfolding submit into_config
form_accepted = refl

-- The button is not held.
abbrev released : List (Bool × ℕ)
released = (false, 0) ∷ []

dead_radio_idles : (main memory dead_radio released none blank).last ≡ idle
unfolding main preceded_by held start_tasks start_network
dead_radio_idles = refl

spawns-main-le_example :
    spawns edge_pool (main memory radio released (some cottage) blank).effects ≤ 5
unfolding pool_size
spawns-main-le_example = spawns-main-le memory radio released (some cottage) blank edge_pool

local_control_first_example :
    LocalFirst
      (load_gate_state memory (check_and_maybe_erase memory released blank))
      (main memory dead_radio released none blank).effects
unfolding held
local_control_first_example = local_control_first memory dead_radio released none blank false refl

provisioned_boots_example :
    let first = main memory radio released (some cottage) blank in
    let second = main memory radio released none first.flash in
    (first.last ≡ software_reset)
    × (wifi_configs first.effects ≡ access_point_config "mqtt-gate-setup" ∷ [])
    × ((p : Pool) → spawns p first.effects ≡ in_provisioning p)
    × (gates second.effects ≡ gates first.effects)
    × (wifi_configs second.effects ≡ network_of form ∷ [])
    × (map form_of (mqtt_clients second.effects) ≡ form ∷ [])
    × ((p : Pool) → spawns p second.effects ≡ in_station p)
unfolding held check_and_maybe_erase mode load_config memory save_config blank
provisioned_boots_example =
    provisioned_boots memory radio form cottage released [] 0 false none blank blank tt
      form_accepted refl refl refl refl refl refl refl

-- A flash whose partition table has no partition for the records.
abbrev unpartitioned : Flash Memory (Option Done) Done Bool Bool
unpartitioned = record {
  read_partition_table = λ f. ok none;
  find_partition = λ t. ok t;
  region = λ n. memory;
  table-store_item = λ n k key v f. refl;
  table-remove_item = λ n key f. refl;
}

abbrev form_sent : Startup Bool
form_sent = record { radio = radio; readings = released; submitted = some cottage; saves = [] }

always_provisions_example :
    let f = after_boots unpartitioned (form_sent ∷ form_sent ∷ []) blank in
    let es = (boot_of unpartitioned form_sent f).effects in
    (f ≡ blank)
    × (gates (before_network es)
        ≡ (
          record { timing = Config.leaf_a; initial_position = 0 },
          record { timing = Config.leaf_b; initial_position = 0 },
          false,
        )
          ∷ [])
    × All (λ c. c ≡ access_point_config "mqtt-gate-setup") (wifi_configs es)
    × (mqtt_clients es ≡ [])
unfolding held
always_provisions_example =
    always_provisions unpartitioned (form_sent ∷ form_sent ∷ []) form_sent blank false
      (absent none refl refl) refl
