-- ===== src/Debounce/Presses.antt =====
-- gate-core/src/debounce.rs: which samples count as a press.
use gate_link.Prelude.{
  ℕ, ◌+◌, ◌≤◌, ◌<◌, ◌≡◌, ◌↔◌, Bool, true, false, ltb, max, inl, inr, Bool-cases, List, [], ◌∷◌,
  arith,
}
use gate_link.Debounce.{Debouncer, sample, feed}

-- The number of samples is a u8 of 1 at least, and the counter is below it.
pub record IsSound (d : Debouncer) : Type 0 where
  pub some_samples : 1 ≤ d.stable_samples
  pub samples_fit : d.stable_samples ≤ 255
  pub below : d.stable < d.stable_samples

sample-IsSound : (pressed : Bool) (d : Debouncer) → IsSound d → IsSound (sample pressed d).0
unfolding sample
sample-IsSound pressed d s = ground arith

-- Whatever is sampled, the counter stays below the number of samples, so the addition of a u8 never
-- wraps.
pub feed-IsSound : (xs : List Bool) (d : Debouncer) → IsSound d → IsSound (feed xs d).0
unfolding feed
feed-IsSound [] d s = s
feed-IsSound (x ∷ xs) d s = feed-IsSound xs (sample x d).0 (sample-IsSound x d s)

-- The longest stretch of pressed samples, the first of which continues `run` of them.
abbrev pub longest : ℕ → List Bool → ℕ
longest run [] = run
longest run (true ∷ xs) = longest (run + 1) xs
longest run (false ∷ xs) = max run (longest 0 xs)

le-longest : (run : ℕ) (xs : List Bool) → run ≤ longest run xs
le-longest run [] = omega arith
le-longest run (true ∷ xs) = omega (arith, le-longest (run + 1) xs)
le-longest run (false ∷ xs) = omega arith

counts_on :
    (d : Debouncer)
    → IsSound d
    → d.armed ≡ true
    → ltb (d.stable + 1) d.stable_samples ≡ true
    → sample true d ≡ (record d { stable = d.stable + 1 }, false)
unfolding sample
counts_on d s a lt = ground arith

starts_over : (d : Debouncer) → d.armed ≡ true → sample false d ≡ (record d { stable = 0 }, false)
unfolding sample
starts_over d a = ground arith

fires :
    (d : Debouncer)
    → IsSound d
    → d.armed ≡ true
    → ltb (d.stable + 1) d.stable_samples ≡ false
    → (sample true d).1 ≡ true
unfolding sample
fires d s a ge = ground arith

-- A debouncer that waits for a press reports one or more in a sequence of samples exactly when the
-- sequence has a stretch of at least `stable_samples` pressed samples in a row, the samples counted
-- so far included: shorter spikes are never reported, and a stable press always is.
pub reports-press :
    (xs : List Bool) (d : Debouncer)
    → IsSound d
    → d.armed ≡ true
    → (0 < (feed xs d).1) ↔ (d.stable_samples ≤ longest d.stable xs)
unfolding feed
reports-press [] d s a = ground arith
reports-press (true ∷ xs) d s a = elim (Bool-cases (ltb (d.stable + 1) d.stable_samples)) [
  | inl lt ↦
      let e = counts_on d s a lt in
      let sound : IsSound (record d { stable = d.stable + 1 }) = ground arith in
      rw e (reports-press xs (record d { stable = d.stable + 1 }) sound a)
  | inr ge ↦ rw (fires d s a ge) (ground (arith, le-longest (d.stable + 1) xs))
]
reports-press (false ∷ xs) d s a =
    let sound : IsSound (record d { stable = 0 }) = ground arith in
    rw (starts_over d a) (ground (arith, reports-press xs (record d { stable = 0 }) sound a))
