-- ===== src/Broker/Examples.antt =====
-- A full queue of two, and the theorem about it.
use gate_link.Prelude.{ℕ, ◌≡◌, some, [], ◌∷◌, ◌++◌, arith}
use gate_link.Broker.{publish_all}
use gate_link.Broker.Queue.{keep_last, publish_all-keep_last}
use gate_link.Broker.BoundedList.{Bounded, bounded_list}

abbrev full : Bounded 2 ℕ
full = (1 ∷ 2 ∷ [], omega arith)

publish_all-keep_last_example :
    (q : Bounded 2 ℕ) × (publish_all bounded_list (3 ∷ 4 ∷ 5 ∷ []) full ≡ some q)
    × (bounded_list.contents q ≡ keep_last 2 (bounded_list.contents full ++ 3 ∷ 4 ∷ 5 ∷ []))
publish_all-keep_last_example =
    publish_all-keep_last bounded_list (3 ∷ 4 ∷ 5 ∷ []) full (omega arith)
