-- ===== src/Storage/Memory.antt =====
-- Flash as a function from kinds and keys: an instance of `Records` for the examples.
use gate_link.Prelude.{
  Done, ℕ, ◌≡◌, ◌≢◌, refl, ap, Bool, ◌==◌, if◌then◌else◌, Option, none, some, Result, ok, err,
  arith,
}
use gate_link.Storage.{Records, Kind, config_kind, gate_state_kind, Value}

abbrev pub Memory : Type 0
Memory = (k : Kind) → ℕ → Option (Value k)

put : (k : Kind) → Value k → (l : Kind) → Option (Value l)
put config_kind v config_kind = some v
put config_kind v gate_state_kind = none
put gate_state_kind v config_kind = none
put gate_state_kind v gate_state_kind = some v

put-same : (k : Kind) (v : Value k) → put k v k ≡ some v
unfolding put
put-same config_kind v = refl
put-same gate_state_kind v = refl

pub store : (k : Kind) → ℕ → Value k → Memory → Memory
unfolding put
store k key v f l i = if i == key then put k v l else f l i

pub remove : ℕ → Memory → Memory
remove key f l i = if i == key then none else f l i

pub store-same : (k : Kind) (key : ℕ) (v : Value k) (f : Memory) → store k key v f k key ≡ some v
unfolding store
store-same k key v f = ground (arith, put-same k v)

pub store-other :
    (k l : Kind) (key other : ℕ) (v : Value k) (f : Memory)
    → key ≢ other
    → store k key v f l other ≡ f l other
unfolding store
store-other k l key other v f h = ground arith

pub remove-same : (k : Kind) (key : ℕ) (f : Memory) → remove key f k key ≡ none
unfolding remove
remove-same k key f = ground arith

pub remove-other :
    (k : Kind) (key other : ℕ) (f : Memory) → key ≢ other → remove key f k other ≡ f k other
unfolding remove
remove-other k key other f h = ground arith

pub no_failure : {A : Type 0} (e : Bool) → ◌≡◌ {A = Result Bool Done} (ok tt) (err e) → A
no_failure e h = cc

-- It does not fail.
unfoldable pub memory : Records Memory Bool
unfolding store remove
memory = record {
  fetch_item = λ k key f. ok (f k key);
  store_item = λ k key v f. (store k key v f, ok tt);
  remove_item = λ key f. (remove key f, ok tt);
  fetch-store_item = λ k key v f b h. ap ok (store-same k key v f);
  fetch-store_failed = λ k key v f e h. no_failure e h;
  fetch-store_other = λ k l key other v f h. ap ok (store-other k l key other v f h);
  fetch-remove_item = λ k key f b h. ap ok (remove-same k key f);
  fetch-remove_other = λ k key other f h. ap ok (remove-other k key other f h);
}

unfoldable pub blank : Memory
blank k key = none
