-- ===== src/Physical/Config.antt =====
-- src/physical/gate_config.rs: the timing of the installation.
use gate_link.Prelude.{ℕ}
use gate_link.Time.{Ticks}
use gate_link.Motor.{LeafTiming}

module _ ⦃ticks : Ticks⦄ where
  open ticks use {from_secs, from_millis}

  abbrev pub leaf_a : LeafTiming
  leaf_a = record {
    open_initial_delay = from_secs 0;
    open_duration = from_secs 15;
    close_initial_delay = from_secs 3;
    close_duration = from_secs 15;
  }

  abbrev pub leaf_b : LeafTiming
  leaf_b = record {
    open_initial_delay = from_secs 3;
    open_duration = from_secs 15;
    close_initial_delay = from_secs 0;
    close_duration = from_secs 15;
  }

  abbrev pub end_stop_overrun : ℕ
  end_stop_overrun = from_secs 1

  abbrev pub reverse_pause : ℕ
  reverse_pause = from_millis 1000

  abbrev pub warning_light_half_period : ℕ
  warning_light_half_period = from_millis 500
