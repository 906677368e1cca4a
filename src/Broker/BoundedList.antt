-- ===== src/Broker/BoundedList.antt =====
-- A list of bounded length: an instance of `Channel` for the examples.
use gate_link.Prelude.{
  ℕ, ◌<◌, ◌≤◌, ◌≡◌, ◌⊎◌, inl, inr, refl, ltb, Bool, true, false, Option, none, some, List, [], ◌∷◌,
  ◌++◌, length, length-append, arith,
}
use gate_link.Broker.{Channel}

abbrev pub Bounded : ℕ → Type 0 → Type 0
Bounded depth M = (xs : List M) × (length xs ≤ depth)

module _ {depth : ℕ} {M : Type 0} where
  room_if :
      (xs : List M) (b : Bool)
      → ltb (length xs) depth ≡ b
      → length xs ≤ depth
      → (length xs < depth) ⊎ (length xs ≡ depth)
  room_if xs true e h = inl (ground arith)
  room_if xs false e h = inr (ground arith)

  pub room_left : (xs : List M) → length xs ≤ depth → (length xs < depth) ⊎ (length xs ≡ depth)
  unfolding room_if
  room_left xs h = room_if xs (ltb (length xs) depth) refl h

  pub send_if :
      (m : M) (q : Bounded depth M)
      → (length q.0 < depth) ⊎ (length q.0 ≡ depth)
      → Bounded depth M × Option M
  send_if m q (inl h) = ((q.0 ++ m ∷ [], omega (arith, length-append q.0 (m ∷ []))), none)
  send_if m q (inr h) = (q, some m)

  pub receive_next : Bounded depth M → Bounded depth M × Option M
  receive_next ([], h) = (([], h), none)
  receive_next (x ∷ xs, h) = ((xs, omega (arith, h)), some x)

  pub send_if-room :
      (m : M) (q : Bounded depth M) (r : (length q.0 < depth) ⊎ (length q.0 ≡ depth))
      → length q.0 < depth
      → ((send_if m q r).1 ≡ none) × ((send_if m q r).0.0 ≡ q.0 ++ m ∷ [])
  unfolding send_if
  send_if-room m q (inl h) k = (refl, refl)
  send_if-room m q (inr h) k = absurd (omega (arith, h, k))

  pub send_if-full :
      (m : M) (q : Bounded depth M) (r : (length q.0 < depth) ⊎ (length q.0 ≡ depth))
      → length q.0 ≡ depth
      → ((send_if m q r).1 ≡ some m) × ((send_if m q r).0.0 ≡ q.0)
  unfolding send_if
  send_if-full m q (inl h) k = absurd (omega (arith, h, k))
  send_if-full m q (inr h) k = (refl, refl)

  pub receive_next-first :
      (m : M) (ms : List M) (q : Bounded depth M)
      → q.0 ≡ m ∷ ms
      → ((receive_next q).1 ≡ some m) × ((receive_next q).0.0 ≡ ms)
  unfolding receive_next
  receive_next-first m ms ([], h) e = absurd (ground arith)
  receive_next-first m ms (x ∷ xs, h) e = ground arith

  pub receive_next-none :
      (q : Bounded depth M) → q.0 ≡ [] → ((receive_next q).1 ≡ none) × ((receive_next q).0.0 ≡ [])
  unfolding receive_next
  receive_next-none ([], h) e = (refl, refl)
  receive_next-none (x ∷ xs, h) e = absurd (ground arith)

  unfoldable pub bounded_list : Channel depth (Bounded depth M) M
  unfolding room_left send_if receive_next
  bounded_list = record {
    contents = λ q. q.0;
    try_send = λ m q. send_if m q (room_left q.0 q.1);
    try_receive = receive_next;
    bounded = λ q. q.1;
    try_send-room = λ m q. send_if-room m q (room_left q.0 q.1);
    try_send-full = λ m q. send_if-full m q (room_left q.0 q.1);
    try_receive-next = receive_next-first;
    try_receive-none = receive_next-none;
  }
