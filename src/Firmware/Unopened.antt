-- ===== src/Firmware/Unopened.antt =====
-- src/bin/main.rs and src/infra/storage.rs: boots of a device whose partition cannot be opened.
use gate_link.Prelude.{
  ℕ, ◌≡◌, refl, ap, sym, ◌∙◌, Bool, false, inl, inr, Option, Option-cases, none, some, List, [],
  ◌∷◌, All, arith,
}
use mathlib.Core.Path.{subst}
use gate_link.Time.{Ticks}
use gate_link.DeviceConfig.{AppConfig}
use gate_link.Storage.{GateState, load_config, load_gate_state, save_gate_state}
use gate_link.Storage.Partition.{Flash}
use gate_link.Storage.Partition.Opened.{opened}
use gate_link.Storage.Partition.Failures.{Missing, Missing-open_store, unopened}
use gate_link.Provisioning.{mode, provision}
use gate_link.ResetButton.{held, check_and_maybe_erase}
use gate_link.ResetButton.Holding.{check_and_maybe_erase-kept}
use gate_link.Physical.Config
use gate_link.Firmware.{
  Radio, access_point_config, Boot, main, start_tasks, start_network, run_mode,
  run_provisioning_mode, await_form, preceded_by, local_tasks,
}
use gate_link.Firmware.Boots.{gate_of, local_control_first}
use gate_link.Firmware.Observed.{before_network, gates, mqtt_clients, wifi_configs}

module _ {F T N P S : Type 0} (flash : Flash F T N P S) where
  -- What a boot leaves and does: the flash is untouched, and there is no station.
  abbrev Provisions : F → Boot F → Type 0
  Provisions f b =
      (b.flash ≡ f)
      × All (λ c. c ≡ access_point_config "mqtt-gate-setup") (wifi_configs b.effects)
      × (mqtt_clients b.effects ≡ [])

  module _ {W : Type 0} (radio : Radio W) (f : F) (missing : Missing flash f) where
    flash-provision : (cfg : AppConfig) → provision (opened flash) cfg f ≡ f
    unfolding provision
    flash-provision cfg =
        let (e, h) = Missing-open_store flash f missing in
        ap (λ r. r.0) ((unopened flash f e h).0 cfg)

    none_loaded : load_config (opened flash) f ≡ none
    none_loaded = let (e, h) = Missing-open_store flash f missing in (unopened flash f e h).3

    none_restored : load_gate_state (opened flash) f ≡ none
    none_restored = let (e, h) = Missing-open_store flash f missing in (unopened flash f e h).4

    provisioning_mode-Provisions :
        (submitted : Option AppConfig)
        → Provisions f (run_provisioning_mode (opened flash) radio submitted f)
    unfolding run_provisioning_mode await_form preceded_by
    provisioning_mode-Provisions none = ground arith
    provisioning_mode-Provisions (some cfg) = ground (arith, flash-provision cfg)

    network-Provisions :
        (submitted : Option AppConfig)
        → Provisions f (start_network (opened flash) radio none submitted f)
    unfolding start_network run_mode preceded_by mode
    network-Provisions submitted = ground (arith, provisioning_mode-Provisions submitted)

    module _ ⦃ticks : Ticks⦄ where
      flash-erased :
          (readings : List (Bool × ℕ)) → check_and_maybe_erase (opened flash) readings f ≡ f
      flash-erased readings =
          let (e, h) = Missing-open_store flash f missing in
          check_and_maybe_erase-kept (opened flash) readings f
            (ap (λ r. r.0) (unopened flash f e h).2)

      tasks-Provisions :
          (submitted : Option AppConfig)
          → Provisions f (start_tasks (opened flash) radio submitted f)
      unfolding start_tasks local_tasks preceded_by
      tasks-Provisions submitted =
          subst (λ o. Provisions f (start_network (opened flash) radio o submitted f))
            (sym none_loaded) (network-Provisions submitted)

      main-Provisions :
          (readings : List (Bool × ℕ)) (submitted : Option AppConfig)
          → Provisions f (main (opened flash) radio readings submitted f)
      unfolding main preceded_by
      main-Provisions readings submitted = elim (Option-cases (held readings)) [
        | inl waits ↦ rw (waits, main) (refl, tt, refl)
        | inr (erase, checked) ↦
            rw (checked, main)
              (subst (λ g. Provisions f (start_tasks (opened flash) radio submitted g))
                (sym (flash-erased readings)) (tasks-Provisions submitted))
      ]

      -- Which gate task a boot spawns, once the boot button is checked.
      gate_closed :
          (readings : List (Bool × ℕ)) (submitted : Option AppConfig) (erase : Bool)
          → held readings ≡ some erase
          → gates (before_network (main (opened flash) radio readings submitted f).effects)
            ≡ gate_of none ∷ []
      gate_closed readings submitted erase checked =
          let gate =
            (local_control_first (opened flash) radio readings submitted f erase checked).1 in
          gate
          ∙ ap (λ g. gate_of (load_gate_state (opened flash) g) ∷ []) (flash-erased readings)
          ∙ ap (λ k. gate_of k ∷ []) none_restored

module _ {F T N P S : Type 0} (flash : Flash F T N P S) where
  abbrev pub save_all : List GateState → F → F
  save_all [] f = f
  save_all (s ∷ ss) f = save_all ss (save_gate_state (opened flash) s f).0

  nothing_saved : (ss : List GateState) (f : F) → Missing flash f → save_all ss f ≡ f
  nothing_saved [] f missing = refl
  nothing_saved (s ∷ ss) f missing =
      let (e, h) = Missing-open_store flash f missing in
      ap (λ r. save_all ss r.0) ((unopened flash f e h).1 s) ∙ nothing_saved ss f missing

-- What a boot depends on besides the flash, and the gate states that its gate task saves.
pub record Startup (W : Type 0) : Type 0 where
  pub radio : Radio W
  pub readings : List (Bool × ℕ)
  pub submitted : Option AppConfig
  pub saves : List GateState

module _ ⦃ticks : Ticks⦄ {F T N P S W : Type 0} (flash : Flash F T N P S) where
  abbrev pub boot_of : Startup W → F → Boot F
  boot_of b f = main (opened flash) b.radio b.readings b.submitted f

  -- The flash behind boots in a row, in each of which the gate task saves its states.
  abbrev pub after_boots : List (Startup W) → F → F
  after_boots [] f = f
  after_boots (b ∷ bs) f = after_boots bs (save_all flash b.saves (boot_of b f).flash)

  unchanged : (bs : List (Startup W)) (f : F) → Missing flash f → after_boots bs f ≡ f
  unchanged [] f missing = refl
  unchanged (b ∷ bs) f missing =
      let (same, _, _) = main-Provisions flash b.radio f missing b.readings b.submitted in
      ap (λ g. after_boots bs (save_all flash b.saves g)) same
      ∙ ap (after_boots bs) (nothing_saved flash b.saves f missing)
      ∙ unchanged bs f missing

  -- When the partition table cannot be read, or has no partition for the records: after any number of
  -- boots, whatever the buttons, the forms and the radio driver give and the gate task saves, and also
  -- if the erasing button is held or a form is accepted, the flash is as it was. In the next boot, once the boot button is
  -- checked, the gate task is spawned with both leaves at position 0 and the wind lock off; the radio
  -- is configured as the access point, if at all; and there is no MQTT client.
  pub always_provisions :
      (bs : List (Startup W)) (b : Startup W) (f : F) (erase : Bool)
      → Missing flash f
      → held b.readings ≡ some erase
      → let es = (boot_of b (after_boots bs f)).effects in
        (after_boots bs f ≡ f)
        × (gates (before_network es)
            ≡ (
              record { timing = Config.leaf_a; initial_position = 0 },
              record { timing = Config.leaf_b; initial_position = 0 },
              false,
            )
              ∷ [])
        × All (λ c. c ≡ access_point_config "mqtt-gate-setup") (wifi_configs es)
        × (mqtt_clients es ≡ [])
  always_provisions bs b f erase missing checked =
      let same = unchanged bs f missing in
      let (_, configs, clients) = main-Provisions flash b.radio f missing b.readings b.submitted in
      let gate = gate_closed flash b.radio f missing b.readings b.submitted erase checked in
      (
        same,
        ap (λ g. gates (before_network (boot_of b g).effects)) same ∙ gate,
        subst
            (λ g.
              All (λ c. c ≡ access_point_config "mqtt-gate-setup")
                (wifi_configs (boot_of b g).effects))
            (sym same) configs,
        ap (λ g. mqtt_clients (boot_of b g).effects) same ∙ clients,
      )
