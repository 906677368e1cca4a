-- ===== src/Firmware/Pools.antt =====
-- src/bin/main.rs: how often a boot spawns each task, and the pools of the tasks.
use gate_link.Prelude.{
  ℕ, ◌+◌, ◌≤◌, ◌≡◌, Bool, ◌==◌, if◌then◌else◌, Option, List, [], ◌∷◌, ◌++◌, map, arith,
}
use gate_link.Time.{Ticks}
use gate_link.DeviceConfig.{AppConfig}
use gate_link.Storage.{Records, GateState, load_config}
use gate_link.Provisioning.{Mode, station, provisioning, mode}
use gate_link.ResetButton.{check_and_maybe_erase}
use gate_link.Physical.Persistence.{restored}
use gate_link.Firmware.{
  SpawnedTask, run_gate, run_edge, run_level, run_warning_light, run_net, run_dhcp_server, run_http,
  run_wifi_connection, run_mqtt_client, run_mqtt_handler, run_discovery, Radio, Effect, spawned,
  preceded_by, local_tasks, gate_with, station_tasks, await_form, run_station_mode,
  run_provisioning_mode, run_mode, start_network, start_tasks, main,
}

-- The task functions. Spawning one more often than its pool has room for gives an error, and main
-- unwraps it.
pub data Pool : Type 0 where
  gate_pool edge_pool level_pool light_pool net_pool dhcp_pool http_pool : Pool
  wifi_pool mqtt_pool handler_pool discovery_pool : Pool

unfoldable pub pool_size : Pool → ℕ
pool_size edge_pool = 5
pool_size level_pool = 2
pool_size _ = 1

unfoldable pub pool_of : SpawnedTask → Pool
pool_of (run_gate _ _ _) = gate_pool
pool_of (run_edge _) = edge_pool
pool_of (run_level _) = level_pool
pool_of run_warning_light = light_pool
pool_of run_net = net_pool
pool_of run_dhcp_server = dhcp_pool
pool_of run_http = http_pool
pool_of run_wifi_connection = wifi_pool
pool_of (run_mqtt_client _) = mqtt_pool
pool_of run_mqtt_handler = handler_pool
pool_of run_discovery = discovery_pool

number : Pool → ℕ
number gate_pool = 0
number edge_pool = 1
number level_pool = 2
number light_pool = 3
number net_pool = 4
number dhcp_pool = 5
number http_pool = 6
number wifi_pool = 7
number mqtt_pool = 8
number handler_pool = 9
number discovery_pool = 10

counted : Pool → Effect → ℕ
unfolding number pool_of
counted p (spawned t) = if number p == number (pool_of t) then 1 else 0
counted p _ = 0

-- How many tasks of a pool the effects spawn.
unfoldable pub spawns : Pool → List Effect → ℕ
unfolding counted
spawns p [] = 0
spawns p (e ∷ es) = counted p e + spawns p es

spawns-append : (p : Pool) (es fs : List Effect) → spawns p (es ++ fs) ≡ spawns p es + spawns p fs
unfolding spawns
spawns-append p [] fs = omega arith
spawns-append p (e ∷ es) fs = omega (arith, spawns-append p es fs)

-- What is left of a pool once the local tasks are spawned.
network_room : Pool → ℕ
network_room gate_pool = 0
network_room edge_pool = 0
network_room level_pool = 0
network_room light_pool = 0
network_room _ = 1

station-Fits :
    (p : Pool) (cfg : AppConfig) → spawns p (map spawned (station_tasks cfg)) ≤ network_room p
unfolding spawns counted number pool_of network_room
station-Fits p cfg = grind arith

module _ ⦃ticks : Ticks⦄ where
  local-Fits :
      (p : Pool) (s : GateState)
      → spawns p (map spawned (local_tasks s)) + network_room p ≤ pool_size p
  unfolding spawns counted number pool_of network_room pool_size local_tasks gate_with
  local-Fits p s = grind arith

module _ {F E W : Type 0} (records : Records F E) (radio : Radio W) where
  station_mode-Fits :
      (p : Pool) (cfg : AppConfig) (f : F)
      → spawns p (run_station_mode records radio cfg f).effects ≤ network_room p
  unfolding run_station_mode preceded_by spawns counted number pool_of network_room
  station_mode-Fits p cfg f = grind arith

  provisioning_mode-Fits :
      (p : Pool) (submitted : Option AppConfig) (f : F)
      → spawns p (run_provisioning_mode records radio submitted f).effects ≤ network_room p
  unfolding run_provisioning_mode await_form preceded_by spawns counted number pool_of network_room
  provisioning_mode-Fits p submitted f = grind arith

  run_mode-Fits :
      (p : Pool) (m : Mode) (submitted : Option AppConfig) (f : F)
      → spawns p (run_mode records radio m submitted f).effects ≤ network_room p
  unfolding run_mode
  run_mode-Fits p (station cfg) submitted f = station_mode-Fits p cfg f
  run_mode-Fits p provisioning submitted f = provisioning_mode-Fits p submitted f

  start_network-Fits :
      (p : Pool) (app_config submitted : Option AppConfig) (f : F)
      → spawns p (start_network records radio app_config submitted f).effects ≤ network_room p
  unfolding start_network preceded_by spawns counted
  start_network-Fits p app_config submitted f =
      ground (arith, run_mode-Fits p (mode app_config) submitted f)

  module _ ⦃ticks : Ticks⦄ where
    start_tasks-Fits :
        (p : Pool) (submitted : Option AppConfig) (f : F)
        → spawns p (start_tasks records radio submitted f).effects ≤ pool_size p
    unfolding start_tasks preceded_by spawns counted
    start_tasks-Fits p submitted f =
        let s = restored records f in
        let net = start_network records radio (load_config records f) submitted f in
        omega (
          arith,
          spawns-append p (map spawned (local_tasks s)) net.effects,
          local-Fits p s,
          start_network-Fits p (load_config records f) submitted f,
        )

    -- In every boot, whatever the button, the flash, the form and the radio driver give, no task is
    -- spawned more often than its pool has room for: the spawns that main unwraps do not panic.
    pub spawns-main-le :
        (readings : List (Bool × ℕ)) (submitted : Option AppConfig) (f : F) (p : Pool)
        → spawns p (main records radio readings submitted f).effects ≤ pool_size p
    unfolding main preceded_by spawns counted
    spawns-main-le readings submitted f p =
        ground (arith, start_tasks-Fits p submitted (check_and_maybe_erase records readings f))
