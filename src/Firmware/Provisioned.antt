-- ===== src/Firmware/Provisioned.antt =====
-- src/bin/main.rs: a boot that takes a form, and the next one.
use gate_link.Prelude.{
  Done, ℕ, ◌≡◌, refl, ap, sym, ◌∙◌, Bool, false, Option, none, some, List, [], ◌∷◌, ◌++◌, map, ok,
  arith,
}
use gate_link.Time.{Ticks}
use gate_link.DeviceConfig.{AppConfig, SubmittedForm, is_empty}
use gate_link.DeviceConfig.Acceptance.{form_of}
use gate_link.Storage.{
  Records, GateState, load_gate_state, load_config, save_config, unwrap_or_default,
}
use gate_link.Storage.Independence.{kept-save_config}
use gate_link.Provisioning.{submit, station, provisioning, mode, provision}
use gate_link.Provisioning.Modes.{submitted_boots}
use gate_link.ResetButton.{held, check_and_maybe_erase}
use gate_link.Physical.Persistence.{restored}
use gate_link.Firmware.{
  WifiConfig, station_config, access_point_config, provisioning_tasks, gate_with, Radio, Effect,
  spawned, wifi_configured, config_saved, software_reset, preceded_by, local_tasks, station_tasks,
  sta_config, ap_config, await_form, run_station_mode, run_provisioning_mode, run_mode,
  start_network, start_tasks, main,
}
use gate_link.Firmware.Observed.{gates, mqtt_clients, wifi_configs}
use gate_link.Firmware.Pools.{
  Pool, dhcp_pool, http_pool, wifi_pool, mqtt_pool, handler_pool, discovery_pool, edge_pool,
  level_pool, pool_of, spawns,
}
use gate_link.Firmware.Boots.{gate_of, begun}

-- How many tasks of each pool a boot into station mode spawns.
abbrev pub in_station : Pool → ℕ
in_station edge_pool = 5
in_station level_pool = 2
in_station dhcp_pool = 0
in_station http_pool = 0
in_station _ = 1

abbrev pub in_provisioning : Pool → ℕ
in_provisioning edge_pool = 5
in_provisioning level_pool = 2
in_provisioning wifi_pool = 0
in_provisioning mqtt_pool = 0
in_provisioning handler_pool = 0
in_provisioning discovery_pool = 0
in_provisioning _ = 1

module _ ⦃ticks : Ticks⦄ where
  abbrev stationed : AppConfig → Option GateState → List Effect
  stationed cfg kept =
      begun (unwrap_or_default kept)
        (wifi_configured (sta_config cfg) ∷ map spawned (station_tasks cfg))

  abbrev provisions : AppConfig → Option GateState → List Effect
  provisions cfg kept =
      begun (unwrap_or_default kept)
        (wifi_configured ap_config ∷ (map spawned provisioning_tasks ++ config_saved cfg ∷ []))

  gates-stationed :
      (cfg : AppConfig) (kept : Option GateState) → gates (stationed cfg kept) ≡ gate_of kept ∷ []
  unfolding local_tasks gate_with unwrap_or_default
  gates-stationed cfg none = refl
  gates-stationed cfg (some s) = refl

  gates-provisions :
      (cfg : AppConfig) (kept : Option GateState) → gates (provisions cfg kept) ≡ gate_of kept ∷ []
  unfolding local_tasks gate_with unwrap_or_default
  gates-provisions cfg none = refl
  gates-provisions cfg (some s) = refl

  configs-stationed :
      (cfg : AppConfig) (kept : Option GateState)
      → wifi_configs (stationed cfg kept) ≡ sta_config cfg ∷ []
  unfolding local_tasks
  configs-stationed cfg kept = refl

  configs-provisions :
      (cfg : AppConfig) (kept : Option GateState)
      → wifi_configs (provisions cfg kept) ≡ ap_config ∷ []
  unfolding local_tasks
  configs-provisions cfg kept = refl

  clients-stationed :
      (cfg : AppConfig) (kept : Option GateState) → mqtt_clients (stationed cfg kept) ≡ cfg ∷ []
  unfolding local_tasks
  clients-stationed cfg kept = refl

  spawns-stationed :
      (p : Pool) (cfg : AppConfig) (kept : Option GateState)
      → spawns p (stationed cfg kept) ≡ in_station p
  unfolding local_tasks spawns pool_of
  spawns-stationed p cfg kept = grind arith

  spawns-provisions :
      (p : Pool) (cfg : AppConfig) (kept : Option GateState)
      → spawns p (provisions cfg kept) ≡ in_provisioning p
  unfolding local_tasks spawns pool_of
  spawns-provisions p cfg kept = grind arith

-- What the form says of the network.
abbrev pub network_of : SubmittedForm → WifiConfig
network_of form = station_config (record {
  ssid = form.ssid;
  password = form.wifi_password;
  open_network = is_empty form.wifi_password;
})

config-form_of :
    (cfg : AppConfig) (form : SubmittedForm) → form_of cfg ≡ form → sta_config cfg ≡ network_of form
unfolding sta_config
config-form_of cfg form e = ap network_of e

module _ {F E W : Type 0} (records : Records F E) (radio : Radio W) where
  module _ ⦃ticks : Ticks⦄ where
    provisioning_boot :
        (readings : List (Bool × ℕ)) (erase : Bool) (cfg : AppConfig) (f f1 : F)
        → held readings ≡ some erase
        → check_and_maybe_erase records readings f ≡ f1
        → mode (load_config records f1) ≡ provisioning
        → radio.wifi_new ≡ ok tt
        → radio.set_config ap_config ≡ ok tt
        → let first = main records radio readings (some cfg) f in
          (first.last ≡ software_reset)
          × (first.flash ≡ provision records cfg f1)
          × (first.effects ≡ provisions cfg (load_gate_state records f1))
    unfolding main start_tasks start_network run_mode run_provisioning_mode await_form preceded_by
        restored
    provisioning_boot readings erase cfg f f1 h checked m started configured = ground arith

    station_boot :
        (t : ℕ) (later : List (Bool × ℕ)) (submitted : Option AppConfig) (cfg : AppConfig) (f : F)
        → mode (load_config records f) ≡ station cfg
        → radio.wifi_new ≡ ok tt
        → radio.set_config (sta_config cfg) ≡ ok tt
        → (main records radio ((false, t) ∷ later) submitted f).effects
          ≡ stationed cfg (load_gate_state records f)
    unfolding main start_tasks start_network run_mode run_station_mode preceded_by held
        check_and_maybe_erase restored
    station_boot t later submitted cfg f m started configured = ground arith

    -- The device boots without a usable configuration, and a form is submitted and accepted. If the
    -- radio driver takes the access point and the network of the form, and the save succeeds: that boot
    -- sets up the access point "mqtt-gate-setup", spawns the tasks of the inputs, of the gate and of the
    -- provisioning, as many as there are, and ends in a reset. The next boot, the boot button being
    -- released and the flash being as main left it, spawns the gate task with the same positions and
    -- wind lock, configures the radio with the network of the form, and spawns, once each, the tasks
    -- of the station and one MQTT client, with what the form says, and no task of the provisioning.
    pub provisioned_boots :
        (form : SubmittedForm) (cfg : AppConfig) (readings later : List (Bool × ℕ)) (t : ℕ)
        (erase : Bool) (submitted : Option AppConfig) (f f1 : F) (b : Done)
        → (submit form).0 ≡ some cfg
        → held readings ≡ some erase
        → check_and_maybe_erase records readings f ≡ f1
        → mode (load_config records f1) ≡ provisioning
        → radio.wifi_new ≡ ok tt
        → radio.set_config ap_config ≡ ok tt
        → radio.set_config (network_of form) ≡ ok tt
        → (save_config records cfg f1).1 ≡ ok b
        → let first = main records radio readings (some cfg) f in
          let second = main records radio ((false, t) ∷ later) submitted first.flash in
          (first.last ≡ software_reset)
          × (wifi_configs first.effects ≡ access_point_config "mqtt-gate-setup" ∷ [])
          × ((p : Pool) → spawns p first.effects ≡ in_provisioning p)
          × (gates second.effects ≡ gates first.effects)
          × (wifi_configs second.effects ≡ network_of form ∷ [])
          × (map form_of (mqtt_clients second.effects) ≡ form ∷ [])
          × ((p : Pool) → spawns p second.effects ≡ in_station p)
    unfolding provision
    provisioned_boots form cfg readings later t erase submitted f f1 b accepted h checked m started
          ap_ok sta_ok saved =
        let (resets, kept, firsts) =
          provisioning_boot readings erase cfg f f1 h checked m started ap_ok in
        let (stationable, same) = submitted_boots records form cfg f1 b accepted saved in
        let net = config-form_of cfg form same in
        let first = main records radio readings (some cfg) f in
        let seconds =
          station_boot t later submitted cfg first.flash
            (ap (λ g. mode (load_config records g)) kept ∙ stationable) started
            (ap radio.set_config net ∙ sta_ok) in
        let gate = load_gate_state records f1 in
        let gate' = load_gate_state records first.flash in
        let unchanged : gate' ≡ gate =
          ap (load_gate_state records) kept ∙ kept-save_config records cfg f1 in
        (
          resets,
          ap wifi_configs firsts ∙ configs-provisions cfg gate,
          λ p. ap (spawns p) firsts ∙ spawns-provisions p cfg gate,
          ap gates seconds
              ∙ gates-stationed cfg gate'
              ∙ ap (λ k. gate_of k ∷ []) unchanged
              ∙ sym (ap gates firsts ∙ gates-provisions cfg gate),
          ap wifi_configs seconds ∙ configs-stationed cfg gate' ∙ ap (λ c. c ∷ []) net,
          ap (λ es. map form_of (mqtt_clients es)) seconds
              ∙ ap (map form_of) (clients-stationed cfg gate')
              ∙ ap (λ x. x ∷ []) same,
          λ p. ap (spawns p) seconds ∙ spawns-stationed p cfg gate',
        )
