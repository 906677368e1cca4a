-- ===== src/Broker/Connection/Order.antt =====
-- src/infra/mqtt_client.rs: what the loop of `run_once` does with the queue of outgoing messages.
use gate_link.Prelude.{
  ◌≡◌, refl, ap, sym, ◌∙◌, inl, inr, Bool, true, false, Option, none, some, Option-cases, List, [],
  ◌∷◌, ◌++◌, Result, ok, err, arith,
}
use mathlib.Core.List.{append_assoc}
use gate_link.Broker.{
  Channel, queue_depth, outgoing_depth, OutgoingMessage, IncomingMessage, Subscription,
}
use gate_link.Broker.Queue.{received_next}
use gate_link.Broker.Connection.{
  Client, Session, SessionError, Arrival, check_due, poll_failed, polled, outgoing_ready, sub_ready,
  sent, subscribed_one, send_next, subscribe_next, hand_over, offer, serve_free, serve, serve_all,
}

module _ {QI QO QS C : Type 0} (incoming_channel : Channel queue_depth QI IncomingMessage)
    (outgoing_channel : Channel outgoing_depth QO OutgoingMessage)
    (sub_channel : Channel queue_depth QS Subscription) (client : Client C) where
  -- What the client has sent, and what waits to be.
  abbrev pub in_order : Session QI QO QS C → List OutgoingMessage
  in_order s = client.published s.client ++ outgoing_channel.contents s.hub.outgoing

  -- The round keeps what is sent and queued, if the connection goes on.
  abbrev pub Keeps : Session QI QO QS C → Result SessionError (Session QI QO QS C) → Type 0
  Keeps s (ok s') = in_order s' ≡ in_order s
  Keeps s (err _) = Unit

  sent-Keeps :
      (r : C × Bool) (m : OutgoingMessage) (q : QO) (s : Session QI QO QS C)
      → (r.1 ≡ true → client.published r.0 ≡ client.published s.client ++ m ∷ [])
      → outgoing_channel.contents s.hub.outgoing ≡ m ∷ outgoing_channel.contents q
      → Keeps s (
          sent incoming_channel outgoing_channel sub_channel client
            (record s { hub = record s.hub { outgoing = q } })
            r)
  unfolding sent
  sent-Keeps (c, false) m q s p e = tt
  sent-Keeps (c, true) m q s p e =
      ap (λ xs. xs ++ outgoing_channel.contents q) (p refl)
      ∙ append_assoc (client.published s.client) (m ∷ []) (outgoing_channel.contents q)
      ∙ ap (λ xs. client.published s.client ++ xs) (sym e)

  send_next-Keeps :
      (r : QO × Option OutgoingMessage) (s : Session QI QO QS C)
      → ((m : OutgoingMessage)
          → r.1 ≡ some m
          → outgoing_channel.contents s.hub.outgoing ≡ m ∷ outgoing_channel.contents r.0)
      → Keeps s (send_next incoming_channel outgoing_channel sub_channel client r s)
  unfolding send_next
  send_next-Keeps (q, none) s h = refl
  send_next-Keeps (q, some m) s h =
      sent-Keeps (client.publish_to m s.client) m q s (client.published-publish_to m s.client)
        (h m refl)

  subscribed_one-Keeps :
      (r : C × Bool) (q : QS) (s : Session QI QO QS C)
      → client.published r.0 ≡ client.published s.client
      → Keeps s (
          subscribed_one incoming_channel outgoing_channel sub_channel client
            (record s { hub = record s.hub { sub_queue = q } })
            r)
  unfolding subscribed_one
  subscribed_one-Keeps (c, true) q s p = ap (λ xs. xs ++ outgoing_channel.contents s.hub.outgoing) p
  subscribed_one-Keeps (c, false) q s p = tt

  subscribe_next-Keeps :
      (r : QS × Option Subscription) (s : Session QI QO QS C)
      → Keeps s (subscribe_next incoming_channel outgoing_channel sub_channel client r s)
  unfolding subscribe_next
  subscribe_next-Keeps (q, none) s = refl
  subscribe_next-Keeps (q, some t) s =
      subscribed_one-Keeps (client.subscribe_to t s.client) q s
        (client.published-subscribe_to t s.client)

  hand_over-kept :
      (m : IncomingMessage) (r : QI × Option IncomingMessage) (s : Session QI QO QS C)
      → in_order (hand_over incoming_channel outgoing_channel sub_channel client m r s) ≡ in_order s
  unfolding hand_over
  hand_over-kept m (q, none) s = refl
  hand_over-kept m (q, some _) s = refl

  offer-kept :
      (m : IncomingMessage) (s : Session QI QO QS C)
      → in_order (offer incoming_channel outgoing_channel sub_channel client m s) ≡ in_order s
  unfolding offer
  offer-kept m s = hand_over-kept m (incoming_channel.try_send m s.hub.incoming) s

  serve_free-Keeps :
      (a : Arrival) (s : Session QI QO QS C)
      → Keeps s (serve_free incoming_channel outgoing_channel sub_channel client a s)
  unfolding serve_free
  serve_free-Keeps check_due s = refl
  serve_free-Keeps poll_failed s = tt
  serve_free-Keeps (polled none) s = refl
  serve_free-Keeps (polled (some m)) s = offer-kept m s
  serve_free-Keeps outgoing_ready s =
      send_next-Keeps (outgoing_channel.try_receive s.hub.outgoing) s
        (received_next outgoing_channel s.hub.outgoing)
  serve_free-Keeps sub_ready s = subscribe_next-Keeps (sub_channel.try_receive s.hub.sub_queue) s

  pub serve-Keeps :
      (a : Arrival) (s : Session QI QO QS C)
      → Keeps s (serve incoming_channel outgoing_channel sub_channel client a s)
  unfolding serve
  serve-Keeps a s = elim (Option-cases s.delivering) [
    | inl e ↦ rw (e, serve) (serve_free-Keeps a s)
    | inr (m, e) ↦ rw (e, serve) (offer-kept m s)
  ]

  go_on :
      List Arrival
      → Result SessionError (Session QI QO QS C)
      → Result SessionError (Session QI QO QS C)
  go_on rest (err e) = err e
  go_on rest (ok s) = serve_all incoming_channel outgoing_channel sub_channel client rest s

  go_on-in_order :
      (rest : List Arrival) (r : Result SessionError (Session QI QO QS C))
      (s s' : Session QI QO QS C)
      → ((s1 : Session QI QO QS C)
          → serve_all incoming_channel outgoing_channel sub_channel client rest s1 ≡ ok s'
          → in_order s' ≡ in_order s1)
      → Keeps s r
      → go_on rest r ≡ ok s'
      → in_order s' ≡ in_order s
  unfolding go_on
  go_on-in_order rest (err e) s s' later k h = absurd (ground arith)
  go_on-in_order rest (ok s1) s s' later k h = later s1 h ∙ k

  -- As long as a connection lasts and nothing new is published, through whatever arrives and is
  -- due: what the client has sent, followed by what waits in the queue, stays the same, so that no
  -- queued message is dropped, sent twice or overtaken.
  pub serve_all-in_order :
      (arrivals : List Arrival) (s s' : Session QI QO QS C)
      → serve_all incoming_channel outgoing_channel sub_channel client arrivals s ≡ ok s'
      → in_order s' ≡ in_order s
  unfolding serve_all go_on
  serve_all-in_order [] s s' h = cc h
  serve_all-in_order (a ∷ rest) s s' h =
      go_on-in_order rest (serve incoming_channel outgoing_channel sub_channel client a s) s s'
        (λ s1. serve_all-in_order rest s1 s') (serve-Keeps a s) h
