-- ===== src/Physical/Reboot.antt =====
-- src/physical/gate.rs and src/bin/main.rs: what the flash holds, and a boot from it.
mod Examples
use gate_link.Prelude.{
  Done, ℕ, ◌≡◌, ◌⊎◌, inl, inr, refl, ap, sym, ◌∙◌, Bool, true, Bool-cases, none, some, List, [],
  ◌∷◌, Result, ok, err, if◌then◌else◌, arith,
}
use mathlib.Core.Path.{subst}
use gate_link.Time.{Ticks}
use gate_link.Controls.{Controls, Snapshot, open_gate}
use gate_link.Storage.{Records, GateState, save_gate_state, unwrap_or_default}
use gate_link.Storage.Independence.{load-save_gate_state, load-save_failed}
use gate_link.Gate
use gate_link.Motor
use gate_link.Physical.{boot}
use gate_link.Physical.Persistence.{
  Kept, to_gate_state, same_state, outcome, persist, persist_all, restored, boot_from, begin_task,
}

same_state-eq : (s t : GateState) → same_state s t ≡ true → s ≡ t
unfolding same_state
same_state-eq s t h = ground arith

module _ {F E : Type 0} (records : Records F E) where
  -- `saved` is what a boot would restore.
  abbrev pub InSync : Kept F → Type 0
  InSync k = restored records k.flash ≡ k.saved

  -- A save either puts the state in the flash, or fails and changes nothing.
  abbrev pub Failed : Snapshot → Kept F → Type 0
  Failed s k = (e : E) × ((save_gate_state records (to_gate_state s) k.flash).1 ≡ err e)

  Result-cases : (r : Result E Done) → ((b : Done) × (r ≡ ok b)) ⊎ ((e : E) × (r ≡ err e))
  Result-cases (ok b) = inl (b, refl)
  Result-cases (err e) = inr (e, refl)

  restored-saved :
      (s : GateState) (f : F) (b : Done)
      → (save_gate_state records s f).1 ≡ ok b
      → restored records (save_gate_state records s f).0 ≡ s
  unfolding restored unwrap_or_default
  restored-saved s f b h = ap unwrap_or_default (load-save_gate_state records s f b h)

  restored-failed :
      (s : GateState) (f : F) (e : E)
      → (save_gate_state records s f).1 ≡ err e
      → restored records (save_gate_state records s f).0 ≡ restored records f
  unfolding restored
  restored-failed s f e h = ap unwrap_or_default (load-save_failed records s f e h)

  outcome-ok :
      (s : GateState) (r : F × Result E Done) (k : Kept F) (b : Done)
      → r.1 ≡ ok b
      → outcome records s r k ≡ record { flash = r.0; saved = s }
  unfolding outcome
  outcome-ok s (f, ok _) k b h = refl
  outcome-ok s (f, err _) k b h = absurd (ground arith)

  outcome-err :
      (s : GateState) (r : F × Result E Done) (k : Kept F) (e : E)
      → r.1 ≡ err e
      → outcome records s r k ≡ record { flash = r.0; saved = k.saved }
  unfolding outcome
  outcome-err s (f, err _) k e h = refl
  outcome-err s (f, ok _) k e h = absurd (ground arith)

  -- What a turn of the loop leaves: the flash and `saved` agree, and they have the new state unless
  -- the save failed.
  KeptWell : Snapshot → Kept F → Kept F → Type 0
  KeptWell s k k' = InSync k' × ((k'.saved ≡ to_gate_state s) ⊎ Failed s k)

  persist-KeptWell : (s : Snapshot) (k : Kept F) → InSync k → KeptWell s k (persist records s k)
  unfolding persist KeptWell
  persist-KeptWell s k h =
      let state = to_gate_state s in
      elim (Bool-cases (same_state state k.saved)) [
        | inl same ↦ rw (same, persist) (h, inl (sym (same_state-eq state k.saved same)))
        | inr new ↦
            let r = save_gate_state records state k.flash in
            elim (Result-cases r.1) [
              | inl (b, e) ↦
                  rw (new, persist)
                    (subst (KeptWell s k) (sym (outcome-ok state r k b e))
                      (restored-saved state k.flash b e, inl refl))
              | inr (x, e) ↦
                  rw (new, persist)
                    (subst (KeptWell s k) (sym (outcome-err state r k x e))
                      (restored-failed state k.flash x e ∙ h, inr (x, e)))
            ]
      ]

  persist_all-InSync :
      (ss : List Snapshot) (k : Kept F) → InSync k → InSync (persist_all records ss k)
  unfolding persist_all KeptWell
  persist_all-InSync [] k h = h
  persist_all-InSync (s ∷ ss) k h =
      persist_all-InSync ss (persist records s k) (persist-KeptWell s k h).0

  module _ ⦃ticks : Ticks⦄ where
    -- A gate that is booted from a flash that holds its last snapshot has both leaves where they
    -- were and the wind lock as it was, and it has an open command to execute if that was engaged,
    -- and no command otherwise.
    pub boot_from-snapshot :
        (now : ℕ) (c : Controls) (f : F) (s : Snapshot)
        → restored records f ≡ to_gate_state s
        → (Gate.snapshot (boot_from records now c f).gate ≡ s)
          × ((boot_from records now c f).gate.pending
              ≡ (if s.wind_locked then some open_gate else none))
    unfolding boot_from to_gate_state boot Gate.new Gate.snapshot Motor.new
    boot_from-snapshot now c f s h = ground arith

    begin_task-InSync : (now : ℕ) (c : Controls) (f : F) → InSync (begin_task records now c f)
    unfolding begin_task boot_from to_gate_state boot Gate.new Gate.snapshot Motor.new
    begin_task-InSync now c f = refl

    -- From the start of the gate task on, through any sequence of settled steps, saves that fail
    -- among them, and one step more: what a boot would restore from the flash is what the task takes
    -- to be saved, and that is the last snapshot unless saving that very snapshot failed.
    pub persist_all-restored :
        (now : ℕ) (c : Controls) (f : F) (ss : List Snapshot) (s : Snapshot)
        → let k = persist_all records ss (begin_task records now c f) in
          (restored records (persist records s k).flash ≡ (persist records s k).saved)
          × (((persist records s k).saved ≡ to_gate_state s) ⊎ Failed s k)
    unfolding KeptWell
    persist_all-restored now c f ss s =
        let k = begin_task records now c f in
        persist-KeptWell s (persist_all records ss k)
          (persist_all-InSync ss k (begin_task-InSync now c f))
