-- ===== src/ResetButton/Holding.antt =====
-- src/infra/reset_button.rs: the readings that erase, and what they leave in the flash.
use gate_link.Prelude.{
  Done, ℕ, zero, suc, ◌≤◌, ◌≡◌, ◌↔◌, refl, Bool, true, false, leb, leb→le, Bool-cases, inl, inr,
  none, some, List, [], ◌∷◌, All, get_elem?, ok, arith,
}
use gate_link.Time.{Ticks}
use gate_link.Storage.{Records, load_config, load_gate_state, erase_config}
use gate_link.Storage.Independence.{erased_config, kept_gate_state}
use gate_link.ResetButton.{hold_ms, held, erase_if, check_and_maybe_erase}

abbrev pub take : ℕ → List (Bool × ℕ) → List (Bool × ℕ)
take zero rs = []
take (suc n) [] = []
take (suc n) (r ∷ rs) = r ∷ take n rs

module _ ⦃ticks : Ticks⦄ where
  -- A reading at five seconds or later is low, and so are all before it.
  pub record HeldLong (rs : List (Bool × ℕ)) : Type 0 where
    pub index : ℕ
    pub elapsed : ℕ
    pub reading : get_elem? rs index ≡ some (true, elapsed)
    pub long : ticks.from_millis hold_ms ≤ elapsed
    pub before : All (λ r. r.0 ≡ true) (take index rs)

  held-HeldLong : (rs : List (Bool × ℕ)) → held rs ≡ some true → HeldLong rs
  unfolding held
  held-HeldLong [] h = absurd (ground arith)
  held-HeldLong ((false, t) ∷ rs) h = absurd (ground arith)
  held-HeldLong ((true, t) ∷ rs) h = elim (Bool-cases (leb (ticks.from_millis hold_ms) t)) [
    | inl e ↦ record {
      index = 0;
      elapsed = t;
      reading = refl;
      long = leb→le (ticks.from_millis hold_ms) t e;
      before = tt;
    }
    | inr n ↦
        let later = held-HeldLong rs (ground arith) in
        record {
          index = suc later.index;
          elapsed = later.elapsed;
          reading = later.reading;
          long = later.long;
          before = (refl, later.before);
        }
  ]

  long_held :
      (i t : ℕ) (rs : List (Bool × ℕ))
      → get_elem? rs i ≡ some (true, t)
      → ticks.from_millis hold_ms ≤ t
      → All (λ r. r.0 ≡ true) (take i rs)
      → held rs ≡ some true
  unfolding held
  long_held i t [] e h b = absurd (ground arith)
  long_held zero t ((low, t') ∷ rs) e h b = ground arith
  long_held (suc i) t ((low, t') ∷ rs) e h b = ground (arith, long_held i t rs e h b.1)

  -- The configuration is to be erased exactly when the button is still held at a reading five
  -- seconds or more after the start, and was held at every reading before: letting go once is enough
  -- to keep it.
  pub held-HeldLong_iff : (rs : List (Bool × ℕ)) → (held rs ≡ some true) ↔ HeldLong rs
  held-HeldLong_iff rs =
      (held-HeldLong rs, λ l. long_held l.index l.elapsed rs l.reading l.long l.before)

  -- A button held that long erases the configuration, if the flash does not fail, and the gate
  -- state is kept.
  pub holding_erases :
      {F E : Type 0} (records : Records F E) (rs : List (Bool × ℕ)) (f : F) (b : Done)
      → HeldLong rs
      → (erase_config records f).1 ≡ ok b
      → (load_config records (check_and_maybe_erase records rs f) ≡ none)
        × (load_gate_state records (check_and_maybe_erase records rs f) ≡ load_gate_state records f)
  unfolding check_and_maybe_erase
  holding_erases records rs f b l e =
      rw ((held-HeldLong_iff rs).1 l) (erased_config records f b e, kept_gate_state records f)

module _ ⦃ticks : Ticks⦄ {F E : Type 0} (records : Records F E) where
  -- An erase that leaves the flash leaves it at the start, too.
  pub check_and_maybe_erase-kept :
      (readings : List (Bool × ℕ)) (f : F)
      → (erase_config records f).0 ≡ f
      → check_and_maybe_erase records readings f ≡ f
  unfolding check_and_maybe_erase erase_if
  check_and_maybe_erase-kept readings f same = ground arith
