-- ===== src/Provisioning/Modes.antt =====
-- src/bin/main.rs: the mode of a boot behind a submitted form, or a held button.
use gate_link.Prelude.{Done, ℕ, ◌≡◌, ap, ◌∙◌, Bool, false, some, List, Result, ok, err, arith}
use gate_link.Time.{Ticks}
use gate_link.DeviceConfig.{AppConfig, SubmittedForm, FormError, into_config, is_empty}
use gate_link.DeviceConfig.Acceptance.{form_of, into_config-ok}
use gate_link.Storage.{Records, load_config, save_config, erase_config}
use gate_link.Storage.Independence.{saved_config}
use gate_link.ResetButton.{check_and_maybe_erase}
use gate_link.ResetButton.Holding.{HeldLong, holding_erases}
use gate_link.Provisioning.{answer, submit, station, provisioning, mode, provision}

answer-some :
    (r : Result FormError AppConfig) (cfg : AppConfig) → (answer r).0 ≡ some cfg → r ≡ ok cfg
unfolding answer
answer-some (ok c) cfg h = cc h
answer-some (err e) cfg h = absurd (ground arith)

mode-station : (cfg : AppConfig) → is_empty cfg.wifi_ssid ≡ false → mode (some cfg) ≡ station cfg
unfolding mode
mode-station cfg h = ground arith

-- A form that is accepted, and saved with success, brings the next boot into station mode with the
-- configuration that the form stands for.
pub submitted_boots :
    {F E : Type 0} (records : Records F E) (form : SubmittedForm) (cfg : AppConfig) (f : F)
    (b : Done)
    → (submit form).0 ≡ some cfg
    → (save_config records cfg f).1 ≡ ok b
    → (mode (load_config records (provision records cfg f)) ≡ station cfg) × (form_of cfg ≡ form)
unfolding submit provision
submitted_boots records form cfg f b h s =
    let (usable, same) = (into_config-ok form cfg).0 (answer-some (into_config form) cfg h) in
    (ap mode (saved_config records cfg f b s) ∙ mode-station cfg usable.ssid_given, same)

-- A button held long enough brings the same boot into provisioning mode, if the flash does not fail.
pub holding_provisions :
    ⦃ticks : Ticks⦄ {F E : Type 0} (records : Records F E) (rs : List (Bool × ℕ)) (f : F) (b : Done)
    → HeldLong rs
    → (erase_config records f).1 ≡ ok b
    → mode (load_config records (check_and_maybe_erase records rs f)) ≡ provisioning
unfolding mode
holding_provisions records rs f b l e = ap mode ((holding_erases records rs f b l e).0)
