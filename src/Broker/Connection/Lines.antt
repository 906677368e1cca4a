-- ===== src/Broker/Connection/Lines.antt =====
-- src/infra/mqtt_client.rs: what becomes of a subscription in a round of the loop of `run_once`.
use gate_link.Prelude.{
  ◌≡◌, refl, ap, sym, ◌∙◌, inl, inr, Bool, true, false, Option, none, some, Option-cases, List, [],
  ◌∷◌, ◌++◌, Result, ok, err,
}
use mathlib.Core.List.{append_assoc}
use gate_link.Broker.{
  Channel, queue_depth, outgoing_depth, OutgoingMessage, IncomingMessage, Subscription,
}
use gate_link.Broker.Queue.{received_next}
use gate_link.Broker.Connection.{
  Client, Session, SessionError, Arrival, check_due, poll_failed, polled, outgoing_ready, sub_ready,
  sent, subscribed_one, send_next, subscribe_next, hand_over, offer, serve_free, serve,
}

module _ {QI QO QS C : Type 0} (incoming_channel : Channel queue_depth QI IncomingMessage)
    (outgoing_channel : Channel outgoing_depth QO OutgoingMessage)
    (sub_channel : Channel queue_depth QS Subscription) (client : Client C) where
  -- The subscriptions that the client has made, and those that wait in the queue.
  abbrev pub line : Session QI QO QS C → List Subscription
  line s = client.subscribed s.client ++ sub_channel.contents s.hub.sub_queue

  abbrev pub SameLine : Session QI QO QS C → Session QI QO QS C → Type 0
  SameLine s s' = (s'.hub.subscriptions ≡ s.hub.subscriptions) × (line s' ≡ line s)

  -- The round moves subscriptions only from the queue to the client, if the connection goes on.
  abbrev pub Serves : Session QI QO QS C → Result SessionError (Session QI QO QS C) → Type 0
  Serves s (ok s') = SameLine s s'
  Serves s (err _) = Unit

  sent-Serves :
      (r : C × Bool) (q : QO) (s : Session QI QO QS C)
      → client.subscribed r.0 ≡ client.subscribed s.client
      → Serves s (
          sent incoming_channel outgoing_channel sub_channel client
            (record s { hub = record s.hub { outgoing = q } })
            r)
  unfolding sent
  sent-Serves (c, false) q s e = tt
  sent-Serves (c, true) q s e = (refl, ap (λ xs. xs ++ sub_channel.contents s.hub.sub_queue) e)

  send_next-Serves :
      (r : QO × Option OutgoingMessage) (s : Session QI QO QS C)
      → Serves s (send_next incoming_channel outgoing_channel sub_channel client r s)
  unfolding send_next
  send_next-Serves (q, none) s = (refl, refl)
  send_next-Serves (q, some m) s =
      sent-Serves (client.publish_to m s.client) q s (client.subscribed-publish_to m s.client)

  subscribed_one-Serves :
      (r : C × Bool) (t : Subscription) (q : QS) (s : Session QI QO QS C)
      → (r.1 ≡ true → client.subscribed r.0 ≡ client.subscribed s.client ++ t ∷ [])
      → sub_channel.contents s.hub.sub_queue ≡ t ∷ sub_channel.contents q
      → Serves s (
          subscribed_one incoming_channel outgoing_channel sub_channel client
            (record s { hub = record s.hub { sub_queue = q } })
            r)
  unfolding subscribed_one
  subscribed_one-Serves (c, false) t q s p e = tt
  subscribed_one-Serves (c, true) t q s p e = (
    refl,
    ap (λ xs. xs ++ sub_channel.contents q) (p refl)
        ∙ append_assoc (client.subscribed s.client) (t ∷ []) (sub_channel.contents q)
        ∙ ap (λ xs. client.subscribed s.client ++ xs) (sym e),
  )

  subscribe_next-Serves :
      (r : QS × Option Subscription) (s : Session QI QO QS C)
      → ((t : Subscription)
          → r.1 ≡ some t
          → sub_channel.contents s.hub.sub_queue ≡ t ∷ sub_channel.contents r.0)
      → Serves s (subscribe_next incoming_channel outgoing_channel sub_channel client r s)
  unfolding subscribe_next
  subscribe_next-Serves (q, none) s h = (refl, refl)
  subscribe_next-Serves (q, some t) s h =
      subscribed_one-Serves (client.subscribe_to t s.client) t q s
        (client.subscribed-subscribe_to t s.client) (h t refl)

  hand_over-SameLine :
      (m : IncomingMessage) (r : QI × Option IncomingMessage) (s : Session QI QO QS C)
      → SameLine s (hand_over incoming_channel outgoing_channel sub_channel client m r s)
  unfolding hand_over
  hand_over-SameLine m (q, none) s = (refl, refl)
  hand_over-SameLine m (q, some _) s = (refl, refl)

  offer-SameLine :
      (m : IncomingMessage) (s : Session QI QO QS C)
      → SameLine s (offer incoming_channel outgoing_channel sub_channel client m s)
  unfolding offer
  offer-SameLine m s = hand_over-SameLine m (incoming_channel.try_send m s.hub.incoming) s

  serve_free-Serves :
      (a : Arrival) (s : Session QI QO QS C)
      → Serves s (serve_free incoming_channel outgoing_channel sub_channel client a s)
  unfolding serve_free
  serve_free-Serves check_due s = (refl, refl)
  serve_free-Serves poll_failed s = tt
  serve_free-Serves (polled none) s = (refl, refl)
  serve_free-Serves (polled (some m)) s = offer-SameLine m s
  serve_free-Serves outgoing_ready s =
      send_next-Serves (outgoing_channel.try_receive s.hub.outgoing) s
  serve_free-Serves sub_ready s =
      subscribe_next-Serves (sub_channel.try_receive s.hub.sub_queue) s
        (received_next sub_channel s.hub.sub_queue)

  pub serve-Serves :
      (a : Arrival) (s : Session QI QO QS C)
      → Serves s (serve incoming_channel outgoing_channel sub_channel client a s)
  unfolding serve
  serve-Serves a s = elim (Option-cases s.delivering) [
    | inl e ↦ rw (e, serve) (serve_free-Serves a s)
    | inr (m, e) ↦ rw (e, serve) (offer-SameLine m s)
  ]
