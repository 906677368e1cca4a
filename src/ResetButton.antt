-- ===== src/ResetButton.antt =====
-- src/infra/reset_button.rs: holding the boot button at the start erases the configuration.
-- A reading is the level of the pin, true for low, and the time since the start, one for each round
-- of the loop.
pub mod Holding
mod Examples
use gate_link.Prelude.{
  ℕ, Bool, true, false, leb, if◌then◌else◌, Option, none, some, List, [], ◌∷◌, Result,
}
use gate_link.Time.{Ticks}
use gate_link.Storage.{Records, erase_config}

abbrev pub hold_ms : ℕ
hold_ms = 5000

module _ ⦃ticks : Ticks⦄ where
  -- Whether the loop ends by erasing; `none` while it goes on.
  unfoldable pub held : List (Bool × ℕ) → Option Bool
  held [] = none
  held ((false, elapsed) ∷ rest) = some false
  held ((true, elapsed) ∷ rest) =
      let later = held rest in if leb (ticks.from_millis hold_ms) elapsed then some true else later

  module _ {F E : Type 0} (records : Records F E) where
    erase_if : Option Bool → F → F
    erase_if (some true) f = (erase_config records f).0
    erase_if _ f = f

    unfoldable pub check_and_maybe_erase : List (Bool × ℕ) → F → F
    unfolding erase_if
    check_and_maybe_erase readings f = erase_if (held readings) f
