-- ===== src/Physical/Board/Gusts.antt =====
-- src/physical/inputs.rs: the samples of an input, and the calls that come of them.
use gate_link.Prelude.{
  ℕ, ◌<◌, ◌≡◌, refl, ap, sym, ◌∙◌, inl, inr, Bool, Bool-cases, true, false, if◌then◌else◌, List, [],
  ◌∷◌, ◌++◌, All, arith,
}
use mathlib.Core.Path.{subst}
use mathlib.Core.List.{append_assoc}
use gate_link.Time.{Ticks}
use gate_link.Controls.{Call}
use gate_link.Debounce.{sample, feed, tally}
use gate_link.Levels.{Barrier}
use gate_link.Gate.World.{Event, call}
use gate_link.Physical.Inputs.{EdgeInput}
use gate_link.Physical.Board.{
  Board, BoardEvent, edge_sampled, level_begun, level_read, other, same_input, input_number,
  put_edge, board_step, level_done,
}
use gate_link.Physical.Board.Traces.{call_for, call_if, emits, trace}

-- The samples of an input among what happens on the board.
unfoldable pub samples : EdgeInput → List BoardEvent → List Bool
samples i [] = []
samples i (edge_sampled j pressed ∷ es) =
    let rest = samples i es in if same_input j i then pressed ∷ rest else rest
samples i (level_begun _ _ ∷ es) = samples i es
samples i (level_read _ _ ∷ es) = samples i es
samples i (other _ ∷ es) = samples i es

same_input_refl : (i : EdgeInput) → same_input i i ≡ true
unfolding same_input input_number
same_input_refl i = ground arith

pub same_input-eq : (j i : EdgeInput) → same_input j i ≡ true → j ≡ i
unfolding same_input input_number
same_input-eq j i h = ground arith

-- A call is among the events.
abbrev pub Makes : Call → List Event → Type 0
Makes k xs = (before : List Event) × (after : List Event) × (xs ≡ before ++ call k ∷ after)

Makes-append : (k : Call) (xs ys : List Event) → Makes k ys → Makes k (xs ++ ys)
Makes-append k xs ys (before, after, e) =
    (xs ++ before, after, ap (λ zs. xs ++ zs) e ∙ sym (append_assoc xs before (call k ∷ after)))

pub All-append : (P : Event → Type 0) (xs ys : List Event) → All P xs → All P ys → All P (xs ++ ys)
All-append P [] ys hx hy = hy
All-append P (x ∷ xs) ys (h, hx) hy = (h, All-append P xs ys hx hy)

pub All-behind : (P : Event → Type 0) (xs ys : List Event) → All P (xs ++ ys) → All P ys
All-behind P [] ys h = h
All-behind P (x ∷ xs) ys h = All-behind P xs ys h.1

module _ ⦃ticks : Ticks⦄ where
  edges-own :
      (i : EdgeInput) (pressed : Bool) (b : Board)
      → (board_step (edge_sampled i pressed) b).edges i ≡ (sample pressed (b.edges i)).0
  unfolding board_step put_edge
  edges-own i pressed b = rw (same_input_refl i) refl

  edges-other :
      (j i : EdgeInput) (pressed : Bool) (b : Board)
      → same_input j i ≡ false
      → (board_step (edge_sampled j pressed) b).edges i ≡ b.edges i
  unfolding board_step put_edge
  edges-other j i pressed b h = rw h refl

  -- How often the input acts from here on.
  unfoldable pub acts : EdgeInput → List BoardEvent → Board → ℕ
  unfolding samples
  acts i es b = (feed (samples i es) (b.edges i)).1

  pub acts-own :
      (i : EdgeInput) (pressed : Bool) (es : List BoardEvent) (b : Board)
      → acts i (edge_sampled i pressed ∷ es) b
        ≡ tally (sample pressed (b.edges i)).1 (acts i es (board_step (edge_sampled i pressed) b))
  unfolding acts samples feed
  acts-own i pressed es b =
      rw (same_input_refl i, acts)
        (ap (λ d. tally (sample pressed (b.edges i)).1 (feed (samples i es) d).1)
          (sym (edges-own i pressed b)))

  pub acts-other :
      (j i : EdgeInput) (pressed : Bool) (es : List BoardEvent) (b : Board)
      → same_input j i ≡ false
      → acts i (edge_sampled j pressed ∷ es) b ≡ acts i es (board_step (edge_sampled j pressed) b)
  unfolding acts samples
  acts-other j i pressed es b h =
      rw (h, acts) (ap (λ d. (feed (samples i es) d).1) (sym (edges-other j i pressed b h)))

  -- An input that acts makes its call.
  Makes-own :
      (fired : Bool) (i : EdgeInput) (n : ℕ) (xs : List Event)
      → 0 < tally fired n
      → (0 < n → Makes (call_for i) xs)
      → Makes (call_for i) (call_if fired (call_for i) ++ xs)
  Makes-own true i n xs h later = ([], xs, refl)
  Makes-own false i n xs h later = later h

  acts-none : (i : EdgeInput) (b : Board) → acts i [] b ≡ 0
  unfolding acts samples feed
  acts-none i b = refl

  pub acts-begun :
      (i : EdgeInput) (r : Barrier) (active : Bool) (es : List BoardEvent) (b : Board)
      → acts i (level_begun r active ∷ es) b ≡ acts i es (board_step (level_begun r active) b)
  unfolding acts samples board_step level_done
  acts-begun i r active es b = refl

  pub acts-read :
      (i : EdgeInput) (r : Barrier) (active : Bool) (es : List BoardEvent) (b : Board)
      → acts i (level_read r active ∷ es) b ≡ acts i es (board_step (level_read r active) b)
  unfolding acts samples board_step level_done
  acts-read i r active es b = refl

  pub acts-beside :
      (i : EdgeInput) (e : Event) (es : List BoardEvent) (b : Board)
      → acts i (other e ∷ es) b ≡ acts i es (board_step (other e) b)
  unfolding acts samples board_step
  acts-beside i e es b = refl

  pub acts-Makes :
      (i : EdgeInput) (es : List BoardEvent) (b : Board)
      → 0 < acts i es b
      → Makes (call_for i) (trace es b)
  unfolding trace
  acts-Makes i [] b h = absurd (omega (arith, h, acts-none i b))
  acts-Makes i (edge_sampled j pressed ∷ es) b h =
      let b' = board_step (edge_sampled j pressed) b in
      elim (Bool-cases (same_input j i)) [
        | inl same ↦
            let eq = same_input-eq j i same in
            subst
              (λ k. Makes (call_for i) (
                call_if (sample pressed (b.edges k)).1 (call_for k)
                ++ trace es (board_step (edge_sampled k pressed) b)))
              (sym eq)
              (Makes-own (sample pressed (b.edges i)).1 i
                (acts i es (board_step (edge_sampled i pressed) b))
                (trace es (board_step (edge_sampled i pressed) b))
                (subst (λ n. 0 < n) (acts-own i pressed es b)
                  (subst (λ k. 0 < acts i (edge_sampled k pressed ∷ es) b) eq h))
                (acts-Makes i es (board_step (edge_sampled i pressed) b)))
        | inr differs ↦
            Makes-append (call_for i) (emits (edge_sampled j pressed) b) (trace es b')
              (acts-Makes i es b' (subst (λ n. 0 < n) (acts-other j i pressed es b differs) h))
      ]
  acts-Makes i (level_begun r active ∷ es) b h =
      let b' = board_step (level_begun r active) b in
      Makes-append (call_for i) (emits (level_begun r active) b) (trace es b')
        (acts-Makes i es b' (subst (λ n. 0 < n) (acts-begun i r active es b) h))
  acts-Makes i (level_read r active ∷ es) b h =
      let b' = board_step (level_read r active) b in
      Makes-append (call_for i) (emits (level_read r active) b) (trace es b')
        (acts-Makes i es b' (subst (λ n. 0 < n) (acts-read i r active es b) h))
  acts-Makes i (other e ∷ es) b h =
      let b' = board_step (other e) b in
      Makes-append (call_for i) (e ∷ []) (trace es b')
        (acts-Makes i es b' (subst (λ n. 0 < n) (acts-beside i e es b) h))
