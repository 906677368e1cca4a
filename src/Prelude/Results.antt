-- ===== src/Prelude/Results.antt =====
-- The `Result` of Rust.
pub data Result {ℓ κ} (E : Type ℓ) (A : Type κ) : Type (ℓ ⊔ κ) where
  ok : A → Result E A
  err : E → Result E A

-- The `()` of an operation that only succeeds.
abbrev pub Done : Type 0
Done = Unit
