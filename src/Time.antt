-- ===== src/Time.antt =====
-- Instants and durations are counted in ticks, as `embassy_time` does. The crate is not part of
-- the repository, so its two conversions are a parameter, with the laws that are used.
use gate_link.Prelude.{ℕ, ◌+◌, ◌*◌, ◌/◌, ◌≤◌, ◌≡◌, arith}

-- `Duration::from_secs`, `from_millis` and `as_millis`. The first two round up to whole ticks and the
-- last rounds down to whole milliseconds; the laws hold at every rate of 1 kHz or more.
pub record Ticks : Type 0 where
  pub from_secs : ℕ → ℕ
  pub from_millis : ℕ → ℕ
  pub as_millis : ℕ → ℕ
  pub as_millis-from_secs : (n : ℕ) → as_millis (from_secs n) ≡ n * 1000
  pub as_millis-from_millis : (n : ℕ) → as_millis (from_millis n) ≡ n
  pub add-as_millis-le : (s t : ℕ) → as_millis s + as_millis t ≤ as_millis (s + t)
  pub as_millis-add-le : (s t : ℕ) → as_millis (s + t) ≤ as_millis s + as_millis t + 1

pub whole_secs : (n : ℕ) → n * 1_000_000 / 1000 ≡ n * 1000
whole_secs n = omega arith

pub whole_millis : (n : ℕ) → n * 1000 / 1000 ≡ n
whole_millis n = omega arith

pub add-whole-le : (s t : ℕ) → s / 1000 + t / 1000 ≤ (s + t) / 1000
add-whole-le s t = omega arith

pub whole-add-le : (s t : ℕ) → (s + t) / 1000 ≤ s / 1000 + t / 1000 + 1
whole-add-le s t = omega arith

-- The default rate of `embassy_time`, a tick per microsecond.
abbrev pub micros : Ticks
micros = record {
  from_secs = λ n. n * 1_000_000;
  from_millis = λ n. n * 1000;
  as_millis = λ t. t / 1000;
  as_millis-from_secs = whole_secs;
  as_millis-from_millis = whole_millis;
  add-as_millis-le = add-whole-le;
  as_millis-add-le = whole-add-le;
}
