-- ===== src/Broker/Queue.antt =====
-- src/infra/mqtt_client.rs: what `publish` leaves in the queue.
use gate_link.Prelude.{
  ℕ, zero, suc, ◌+◌, ◌-◌, ◌<◌, ◌≤◌, ◌≡◌, refl, ap, sym, ◌∙◌, ◌⊎◌, inl, inr, Option, none, some,
  List, [], ◌∷◌, ◌++◌, length, length-append, arith,
}
use mathlib.Core.List.{append-nil, append_assoc, Sublist}
use mathlib.Core.List.Sublist
use gate_link.Broker.{Channel, publish_loop, publish, publish_all}

module _ {ℓ} {A : Type ℓ} where
  pub drop : ℕ → List A → List A
  drop zero xs = xs
  drop (suc n) [] = []
  drop (suc n) (x ∷ xs) = drop n xs

  -- The last `n` elements.
  abbrev pub keep_last : ℕ → List A → List A
  keep_last n xs = drop (length xs - n) xs

  drop-Sublist : (n : ℕ) (xs : List A) → Sublist (drop n xs) xs
  unfolding drop
  drop-Sublist zero xs = Sublist.refl xs
  drop-Sublist (suc n) [] = Sublist.refl []
  drop-Sublist (suc n) (x ∷ xs) = Sublist.cons x (drop-Sublist n xs)

  pub keep_last-Sublist : (n : ℕ) (xs : List A) → Sublist (keep_last n xs) xs
  keep_last-Sublist n xs = drop-Sublist (length xs - n) xs

  pub drop-append : (n : ℕ) (xs ys : List A) → n ≤ length xs → drop n (xs ++ ys) ≡ drop n xs ++ ys
  unfolding drop
  drop-append zero xs ys h = refl
  drop-append (suc n) [] ys h = absurd (omega arith)
  drop-append (suc n) (x ∷ xs) ys h = drop-append n xs ys (omega arith)

  drop-nil : (n : ℕ) → drop n [] ≡ []
  unfolding drop
  drop-nil zero = refl
  drop-nil (suc n) = refl

  drop-drop : (m n : ℕ) (xs : List A) → drop m (drop n xs) ≡ drop (n + m) xs
  unfolding drop
  drop-drop m zero xs = ap (λ k. drop k xs) (omega arith)
  drop-drop m (suc n) [] = drop-nil m ∙ sym (drop-nil (suc n + m))
  drop-drop m (suc n) (x ∷ xs) =
      let counted : suc (n + m) ≡ suc n + m = omega arith in
      drop-drop m n xs ∙ ap (λ k. drop k (x ∷ xs)) counted

  length-drop : (n : ℕ) (xs : List A) → length (drop n xs) ≡ length xs - n
  unfolding drop
  length-drop zero xs = omega arith
  length-drop (suc n) [] = omega arith
  length-drop (suc n) (x ∷ xs) = omega (arith, length-drop n xs)

  keep_last-short : (n : ℕ) (xs : List A) → length xs ≤ n → keep_last n xs ≡ xs
  unfolding drop
  keep_last-short n xs h =
      let none_over : length xs - n ≡ 0 = omega arith in ap (λ k. drop k xs) none_over

  pub keep_last-append :
      (n : ℕ) (xs zs : List A) → keep_last n (keep_last n xs ++ zs) ≡ keep_last n (xs ++ zs)
  keep_last-append n xs zs =
      let k = length xs - n in
      let moved = drop-append k xs zs (omega arith) in
      let total : k + (length (drop k (xs ++ zs)) - n) ≡ length (xs ++ zs) - n =
        omega (arith, length-drop k (xs ++ zs), length-append xs zs) in
      ap (keep_last n) (sym moved)
      ∙ drop-drop (length (drop k (xs ++ zs)) - n) k (xs ++ zs)
      ∙ ap (λ i. drop i (xs ++ zs)) total

pub List-cases {ℓ} :
    {A : Type ℓ} (xs : List A) → (xs ≡ []) ⊎ ((x : A) × (rest : List A) × (xs ≡ x ∷ rest))
List-cases [] = inl refl
List-cases (x ∷ xs) = inr (x, xs, refl)

module _ {depth : ℕ} {Q M : Type 0} (channel : Channel depth Q M) where
  open channel use {contents, try_send, try_receive}

  pub received_next :
      (q : Q) (m : M) → (try_receive q).1 ≡ some m → contents q ≡ m ∷ contents (try_receive q).0
  received_next q m h = elim (List-cases (contents q)) [
    | inl e ↦ let (no_more, _) = channel.try_receive-none q e in absurd (ground (arith, no_more, h))
    | inr (x, xs, e) ↦
        let (first, left) = channel.try_receive-next x xs q e in
        let same : x ≡ m = ground (arith, first, h) in cc (e, left, same)
  ]

  fits_or_full : (q : Q) → (length (contents q) < depth) ⊎ (length (contents q) ≡ depth)
  fits_or_full q = grind (arith, channel.bounded q)

  -- A send that fails gives the message back and leaves the queue as it is.
  pub sent_or_kept :
      (m : M) (q : Q)
      → (((try_send m q).1 ≡ none) × (contents (try_send m q).0 ≡ contents q ++ m ∷ []))
        ⊎ (((try_send m q).1 ≡ some m) × (contents (try_send m q).0 ≡ contents q))
  sent_or_kept m q = elim (fits_or_full q) [
    | inl fits ↦ inl (channel.try_send-room m q fits)
    | inr full ↦ inr (channel.try_send-full m q full)
  ]

  Queued : Q → List M → Option Q → Type 0
  Queued q ms o = (q' : Q) × (o ≡ some q') × (contents q' ≡ keep_last depth (contents q ++ ms))

  sent_at_once :
      (fuel : ℕ) (m : M) (q : Q)
      → length (contents q) < depth
      → publish_loop channel (suc fuel) m q ≡ some (try_send m q).0
  unfolding publish_loop
  sent_at_once fuel m q h = rw ((channel.try_send-room m q h).0, publish_loop) refl

  room : (m : M) (q : Q) → length (contents q) < depth → Queued q (m ∷ []) (publish channel m q)
  unfolding publish Queued
  room m q h = (
    (try_send m q).0,
    sent_at_once 1 m q h,
    (channel.try_send-room m q h).1
        ∙ sym (
            keep_last-short depth (contents q ++ m ∷ [])
              (omega (arith, length-append (contents q) (m ∷ [])))),
  )

  sent_after_one :
      (m x : M) (xs : List M) (q : Q)
      → contents q ≡ x ∷ xs
      → length (contents q) ≡ depth
      → publish_loop channel 2 m q ≡ some (try_send m (try_receive (try_send m q).0).0).0
  unfolding publish_loop
  sent_after_one m x xs q e h =
      let full = channel.try_send-full m q h in
      let q' = (try_send m q).0 in
      let next = channel.try_receive-next x xs q' (full.1 ∙ e) in
      rw (full.0, publish_loop)
        (sent_at_once 0 m (try_receive q').0 (omega (arith, ap length next.1, ap length e)))

  no_room :
      (m x : M) (xs : List M) (q : Q)
      → contents q ≡ x ∷ xs
      → length (contents q) ≡ depth
      → Queued q (m ∷ []) (publish channel m q)
  unfolding publish Queued drop
  no_room m x xs q e h =
      let full = channel.try_send-full m q h in
      let q' = (try_send m q).0 in
      let next = channel.try_receive-next x xs q' (full.1 ∙ e) in
      let rest = (try_receive q').0 in
      let sent = channel.try_send-room m rest (omega (arith, ap length next.1, ap length e)) in
      let over : length ((x ∷ xs) ++ m ∷ []) - depth ≡ 1 =
        omega (arith, ap length e, length-append xs (m ∷ [])) in
      (
        (try_send m rest).0,
        sent_after_one m x xs q e h,
        sent.1
            ∙ ap (λ ys. ys ++ m ∷ []) next.1
            ∙ sym (ap (λ k. drop k (x ∷ xs ++ m ∷ [])) over)
            ∙ sym (ap (λ ys. keep_last depth (ys ++ m ∷ [])) e),
      )

  pub publish-keep_last :
      1 ≤ depth
      → (m : M) (q : Q)
      → (q' : Q) × (publish channel m q ≡ some q')
        × (contents q' ≡ keep_last depth (contents q ++ m ∷ []))
  unfolding publish Queued
  publish-keep_last some_room m q = elim (List-cases (contents q)) [
    | inl e ↦ room m q (omega (arith, ap length e))
    | inr (x, xs, e) ↦ elim (fits_or_full q) [ inl h ↦ room m q h | inr h ↦ no_room m x xs q e h ]
  ]

  -- Publishing never blocks: the loop ends, in two rounds at most, for every message, also on a
  -- full queue. After a sequence of messages the queue holds the newest of what it held and of
  -- these, in order, as many as fit. It can hold one message or more.
  pub publish_all-keep_last :
      (ms : List M) (q : Q)
      → 1 ≤ depth
      → (q' : Q) × (publish_all channel ms q ≡ some q')
        × (contents q' ≡ keep_last depth (contents q ++ ms))
  unfolding publish_all Queued
  publish_all-keep_last [] q h =
      let short : length (contents q ++ []) ≤ depth =
        omega (arith, channel.bounded q, length-append (contents q) []) in
      (q, refl, sym (keep_last-short depth (contents q ++ []) short ∙ append-nil (contents q)))
  publish_all-keep_last (m ∷ ms) q h =
      let (q1, e1, c1) = publish-keep_last h m q in
      let (q2, e2, c2) = publish_all-keep_last ms q1 h in
      (
        q2,
        rw (e1, publish_all) e2,
        c2
            ∙ ap (λ ys. keep_last depth (ys ++ ms)) c1
            ∙ keep_last-append depth (contents q ++ m ∷ []) ms
            ∙ ap (keep_last depth) (append_assoc (contents q) (m ∷ []) ms),
      )
