-- ===== src/Gate/Deadlines.antt =====
-- The phases of the two leaves and the deadline that the loop of `drive` computes from them.
use gate_link.Prelude.{
  ℕ, suc, ◌+◌, ◌≤◌, ◌<◌, ◌≡◌, refl, ap, ◌∙◌, ◌==◌, if◌then◌else◌, Option, none, some, arith,
}
use gate_link.Gate.{Phase, waiting, running, done, map_or_min}

-- The turns that a leaf has yet to make.
abbrev pub rank : Phase → ℕ
rank (waiting _) = 2
rank (running _) = 1
rank done = 0

abbrev pub due : Phase → ℕ → ℕ
due (waiting at) now = if at == now then 1 else 0
due (running at) now = if at == now then 1 else 0
due done now = 0

abbrev pub with_deadline : Option ℕ → Phase → Option ℕ
with_deadline next (waiting at) = some (map_or_min next at)
with_deadline next (running at) = some (map_or_min next at)
with_deadline next done = next

pub none_left :
    (deadline : ℕ) (pa pb : Phase)
    → rank pa + rank pb ≤ 0
    → some deadline ≡ with_deadline (with_deadline none pa) pb
    → ⊥
none_left deadline done done h e = cc
none_left deadline (waiting _) pb h e = omega arith
none_left deadline (running _) pb h e = omega arith
none_left deadline done (waiting _) h e = omega arith
none_left deadline done (running _) h e = omega arith

abbrev pub Beyond : ℕ → Phase → Type 0
Beyond n (waiting at) = n ≤ at
Beyond n (running at) = n ≤ at
Beyond n done = Unit {0}

pub rank-le : (p : Phase) → rank p ≤ 2
rank-le (waiting _) = omega arith
rank-le (running _) = omega arith
rank-le done = omega arith

-- The deadline is the first of the leaves' times.
pub deadline_first :
    (now deadline : ℕ) (pa pb : Phase)
    → Beyond (suc now) pa
    → Beyond (suc now) pb
    → some deadline ≡ with_deadline (with_deadline none pa) pb
    → (now < deadline)
      × Beyond deadline pa
      × Beyond deadline pb
      × (1 ≤ due pa deadline + due pb deadline)
unfolding map_or_min
deadline_first now deadline done done ba bb e = cc
deadline_first now deadline done (waiting at) ba bb e = ground arith
deadline_first now deadline done (running at) ba bb e = ground arith
deadline_first now deadline (waiting at) done ba bb e = ground arith
deadline_first now deadline (running at) done ba bb e = ground arith
deadline_first now deadline (waiting at) (waiting bt) ba bb e = ground arith
deadline_first now deadline (waiting at) (running bt) ba bb e = ground arith
deadline_first now deadline (running at) (waiting bt) ba bb e = ground arith
deadline_first now deadline (running at) (running bt) ba bb e = ground arith

pub both_done :
    (pa pb : Phase) → none ≡ with_deadline (with_deadline none pa) pb → (pa ≡ done) × (pb ≡ done)
both_done done done e = (refl, refl)
both_done (waiting _) done e = cc
both_done (running _) done e = cc
both_done _ (waiting _) e = cc
both_done _ (running _) e = cc

pub join_deadlines :
    (pa pb : Phase) {mid next : Option ℕ}
    → mid ≡ with_deadline none pa
    → next ≡ with_deadline mid pb
    → next ≡ with_deadline (with_deadline none pa) pb
join_deadlines pa pb ea eb = eb ∙ ap (λ n. with_deadline n pb) ea
