-- ===== src/Broker/Drain.antt =====
-- src/infra/mqtt_client.rs: the loops that empty a queue.
use gate_link.Prelude.{ℕ, zero, suc, ◌<◌, ◌≡◌, refl, ap, Option, some, [], length, inl, inr, arith}
use gate_link.Broker.{Channel, drain}
use gate_link.Broker.Queue.{List-cases}

module _ {depth : ℕ} {Q M : Type 0} (channel : Channel depth Q M) where
  open channel use {contents, try_receive}

  Emptied : Option Q → Type 0
  Emptied o = (q : Q) × (o ≡ some q) × (contents q ≡ [])

  drained_at_once : (fuel : ℕ) (q : Q) → contents q ≡ [] → Emptied (drain channel (suc fuel) q)
  unfolding drain Emptied
  drained_at_once fuel q e =
      let (no_more, left) = channel.try_receive-none q e in
      ((try_receive q).0, rw (no_more, drain) refl, left)

  -- Fuel for the messages that the queue holds, and one round more, is enough.
  pub drain-Emptied :
      (fuel : ℕ) (q : Q)
      → length (contents q) < fuel
      → (q' : Q) × (drain channel fuel q ≡ some q') × (contents q' ≡ [])
  unfolding drain Emptied
  drain-Emptied zero q h = absurd (omega (arith, h))
  drain-Emptied (suc fuel) q h = elim (List-cases (contents q)) [
    | inl e ↦ drained_at_once fuel q e
    | inr (m, ms, e) ↦
        let (one, left) = channel.try_receive-next m ms q e in
        let (q', ends, empty) =
          drain-Emptied fuel (try_receive q).0 (omega (arith, ap length left, ap length e)) in
        (q', rw (one, drain) ends, empty)
  ]
