-- ===== src/Storage/Partition/Opened.antt =====
-- src/infra/storage.rs: records behind the lookup of their partition are records again.
use gate_link.Prelude.{Done, ℕ, ◌≡◌, ◌≢◌, refl, ap, ◌∙◌, none, some, Result, ok, err, arith}
use gate_link.Storage.{Records, Kind, Value}
use gate_link.Storage.Partition.{
  StorageError, storage, Flash, map_err, open_table, open_store, fetch_in, store_in, remove_in,
}

map_err-ok : {S E A : Type 0} (g : S → E) (r : Result S A) (a : A) → map_err g r ≡ ok a → r ≡ ok a
unfolding map_err
map_err-ok g (ok x) a h = ground arith
map_err-ok g (err e) a h = absurd (ground arith)

map_err-err :
    {S E A : Type 0} (g : S → E) (r : Result S A) (e : E)
    → map_err g r ≡ err e
    → (x : S) × (r ≡ err x)
unfolding map_err
map_err-err g (ok a) e h = absurd (ground arith)
map_err-err g (err x) e h = (x, refl)

module _ {F T N P S : Type 0} (flash : Flash F T N P S) where
  open flash use {region}

  pub open-store_in :
      (r : Result (StorageError P S) N) (k : Kind) (key : ℕ) (v : Value k) (f : F)
      → open_store flash (store_in flash r k key v f).0 ≡ open_store flash f
  unfolding open_store store_in
  open-store_in (err e) k key v f = refl
  open-store_in (ok n) k key v f = ap (open_table flash) (flash.table-store_item n k key v f)

  pub open-remove_in :
      (r : Result (StorageError P S) N) (key : ℕ) (f : F)
      → open_store flash (remove_in flash r key f).0 ≡ open_store flash f
  unfolding open_store remove_in
  open-remove_in (err e) key f = refl
  open-remove_in (ok n) key f = ap (open_table flash) (flash.table-remove_item n key f)

  pub fetch-store_in :
      (r : Result (StorageError P S) N) (k : Kind) (key : ℕ) (v : Value k) (f : F) (b : Done)
      → (store_in flash r k key v f).1 ≡ ok b
      → fetch_in flash r k key (store_in flash r k key v f).0 ≡ ok (some v)
  unfolding store_in fetch_in
  fetch-store_in (err e) k key v f b h = absurd (ground arith)
  fetch-store_in (ok n) k key v f b h =
      ap (map_err storage) ((region n).fetch-store_item k key v f b (map_err-ok storage _ b h))

  pub fetch-store_in_other :
      (r : Result (StorageError P S) N) (k l : Kind) (key other : ℕ) (v : Value k) (f : F)
      → key ≢ other
      → fetch_in flash r l other (store_in flash r k key v f).0 ≡ fetch_in flash r l other f
  unfolding store_in fetch_in
  fetch-store_in_other (err e) k l key other v f h = refl
  fetch-store_in_other (ok n) k l key other v f h =
      ap (map_err storage) ((region n).fetch-store_other k l key other v f h)

  pub fetch-remove_in :
      (r : Result (StorageError P S) N) (k : Kind) (key : ℕ) (f : F) (b : Done)
      → (remove_in flash r key f).1 ≡ ok b
      → fetch_in flash r k key (remove_in flash r key f).0 ≡ ok none
  unfolding remove_in fetch_in
  fetch-remove_in (err e) k key f b h = absurd (ground arith)
  fetch-remove_in (ok n) k key f b h =
      ap (map_err storage) ((region n).fetch-remove_item k key f b (map_err-ok storage _ b h))

  pub fetch-remove_in_other :
      (r : Result (StorageError P S) N) (k : Kind) (key other : ℕ) (f : F)
      → key ≢ other
      → fetch_in flash r k other (remove_in flash r key f).0 ≡ fetch_in flash r k other f
  unfolding remove_in fetch_in
  fetch-remove_in_other (err e) k key other f h = refl
  fetch-remove_in_other (ok n) k key other f h =
      ap (map_err storage) ((region n).fetch-remove_other k key other f h)

  pub fetch-store_in_failed :
      (r : Result (StorageError P S) N) (k : Kind) (key : ℕ) (v : Value k) (f : F)
      (e : StorageError P S)
      → (store_in flash r k key v f).1 ≡ err e
      → fetch_in flash r k key (store_in flash r k key v f).0 ≡ fetch_in flash r k key f
  unfolding store_in fetch_in
  fetch-store_in_failed (err _) k key v f e h = refl
  fetch-store_in_failed (ok n) k key v f e h =
      let (x, failed) = map_err-err storage _ e h in
      ap (map_err storage) ((region n).fetch-store_failed k key v f x failed)

  -- The records as the functions of the module reach them: the partition is opened each time.
  unfoldable pub opened : Records F (StorageError P S)
  unfolding fetch_in store_in remove_in
  opened = record {
    fetch_item = λ k key f. fetch_in flash (open_store flash f) k key f;
    store_item = λ k key v f. store_in flash (open_store flash f) k key v f;
    remove_item = λ key f. remove_in flash (open_store flash f) key f;
    fetch-store_item = λ k key v f b h.
        ap (λ o. fetch_in flash o k key (store_in flash (open_store flash f) k key v f).0)
          (open-store_in (open_store flash f) k key v f)
        ∙ fetch-store_in (open_store flash f) k key v f b h;
    fetch-store_failed = λ k key v f e h.
        ap (λ o. fetch_in flash o k key (store_in flash (open_store flash f) k key v f).0)
          (open-store_in (open_store flash f) k key v f)
        ∙ fetch-store_in_failed (open_store flash f) k key v f e h;
    fetch-store_other = λ k l key other v f h.
        ap (λ o. fetch_in flash o l other (store_in flash (open_store flash f) k key v f).0)
          (open-store_in (open_store flash f) k key v f)
        ∙ fetch-store_in_other (open_store flash f) k l key other v f h;
    fetch-remove_item = λ k key f b h.
        ap (λ o. fetch_in flash o k key (remove_in flash (open_store flash f) key f).0)
          (open-remove_in (open_store flash f) key f)
        ∙ fetch-remove_in (open_store flash f) k key f b h;
    fetch-remove_other = λ k key other f h.
        ap (λ o. fetch_in flash o k other (remove_in flash (open_store flash f) key f).0)
          (open-remove_in (open_store flash f) key f)
        ∙ fetch-remove_in_other (open_store flash f) k key other f h;
  }
