-- ===== src/Broker/Connection.antt =====
-- src/infra/mqtt_client.rs: `subscribe`, and `run_once` from the CONNECT on.
-- `Client` stands for the client of vendor/mqtt-async-embedded: a `subscribe` or `publish` that
-- succeeds has been sent to the broker behind the earlier ones.
pub mod Sessions
pub mod Order
pub mod Lines
mod Examples
use gate_link.Prelude.{
  ℕ, ◌+◌, Bool, true, false, ◌≡◌, Option, none, some, List, [], ◌∷◌, ◌++◌, Result, ok, err,
}
use gate_link.Broker.{
  Channel, queue_depth, outgoing_depth, OutgoingMessage, IncomingMessage, Subscription, drain,
}

pub record Client (C : Type 0) : Type 0 where
  pub subscribe_to : Subscription → C → C × Bool
  pub publish_to : OutgoingMessage → C → C × Bool
  pub subscribed : C → List Subscription
  pub published : C → List OutgoingMessage
  pub subscribed-subscribe_to :
      (s : Subscription) (c : C)
      → (subscribe_to s c).1 ≡ true
      → subscribed (subscribe_to s c).0 ≡ subscribed c ++ s ∷ []
  pub published-publish_to :
      (m : OutgoingMessage) (c : C)
      → (publish_to m c).1 ≡ true
      → published (publish_to m c).0 ≡ published c ++ m ∷ []
  pub published-subscribe_to :
      (s : Subscription) (c : C) → published (subscribe_to s c).0 ≡ published c
  pub subscribed-publish_to :
      (m : OutgoingMessage) (c : C) → subscribed (publish_to m c).0 ≡ subscribed c

-- The statics of the module.
pub record Hub (QI QO QS : Type 0) : Type 0 where
  pub incoming : QI
  pub outgoing : QO
  pub connected : Bool
  pub subscriptions : List Subscription
  pub sub_queue : QS

-- `delivering` is the message that the loop waits to hand over, when the queue for it is full.
pub record Session (QI QO QS C : Type 0) : Type 0 where
  pub hub : Hub QI QO QS
  pub client : C
  pub delivering : Option IncomingMessage

pub data SessionError : Type 0 where
  resubscribe_failed connection_error publish_failed subscribe_failed : SessionError

-- What the `select3` of the loop gives, or, while the loop waits to hand over a message, a poll.
pub data Arrival : Type 0 where
  check_due : Arrival
  poll_failed : Arrival
  polled : Option IncomingMessage → Arrival
  outgoing_ready sub_ready : Arrival

-- The part of `subscribe` before its await: the topic is registered, whatever the queue holds.
unfoldable pub register : {QI QO QS : Type 0} → Subscription → Hub QI QO QS → Hub QI QO QS
register s h = record h { subscriptions = h.subscriptions ++ s ∷ [] }

module _ {C : Type 0} (client : Client C) where
  open client use {subscribe_to, publish_to}

  unfoldable pub resubscribe : List Subscription → C → C × Bool
  resubscribe [] c = (c, true)
  resubscribe (s ∷ ss) c =
      let (c', done) = subscribe_to s c in
      let rest = resubscribe ss c' in elim done [ true ↦ rest | false ↦ (c', false) ]

module _ {QI QO QS C : Type 0} (incoming_channel : Channel queue_depth QI IncomingMessage)
    (outgoing_channel : Channel outgoing_depth QO OutgoingMessage)
    (sub_channel : Channel queue_depth QS Subscription) (client : Client C) where
  -- The end of the start: what piled up is dropped, and the app is told.
  announce : Session QI QO QS C → Option QO → Option (Result SessionError (Session QI QO QS C))
  announce s none = none
  announce s (some q) =
      some (ok (record s { hub = record s.hub { outgoing = q; connected = true } }))

  resubscribed : Hub QI QO QS → C × Bool → Option (Result SessionError (Session QI QO QS C))
  unfolding announce
  resubscribed h (c, true) =
      announce (record { hub = h; client = c; delivering = none })
        (drain outgoing_channel (outgoing_depth + 1) h.outgoing)
  resubscribed h (c, false) = some (err resubscribe_failed)

  -- From the CONNECT on to the loop. `none` is a loop that goes on for ever.
  unfoldable pub begin_session :
      Hub QI QO QS → C → Option (Result SessionError (Session QI QO QS C))
  unfolding resubscribed
  begin_session h c = elim (drain sub_channel (queue_depth + 1) h.sub_queue) [
    | none ↦ none
    | some q ↦ resubscribed (record h { sub_queue = q }) (resubscribe client h.subscriptions c)
  ]

  sent : Session QI QO QS C → C × Bool → Result SessionError (Session QI QO QS C)
  sent s (c, true) = ok (record s { client = c })
  sent s (c, false) = err publish_failed

  subscribed_one : Session QI QO QS C → C × Bool → Result SessionError (Session QI QO QS C)
  subscribed_one s (c, true) = ok (record s { client = c })
  subscribed_one s (c, false) = err subscribe_failed

  send_next :
      QO × Option OutgoingMessage → Session QI QO QS C → Result SessionError (Session QI QO QS C)
  unfolding sent
  send_next (q, none) s = ok s
  send_next (q, some m) s =
      sent (record s { hub = record s.hub { outgoing = q } }) (client.publish_to m s.client)

  subscribe_next :
      QS × Option Subscription → Session QI QO QS C → Result SessionError (Session QI QO QS C)
  unfolding subscribed_one
  subscribe_next (q, none) s = ok s
  subscribe_next (q, some t) s =
      subscribed_one (record s { hub = record s.hub { sub_queue = q } })
        (client.subscribe_to t s.client)

  -- `INCOMING.send(message).await`: it waits while the queue is full.
  hand_over :
      IncomingMessage → QI × Option IncomingMessage → Session QI QO QS C → Session QI QO QS C
  hand_over m (q, none) s = record s { hub = record s.hub { incoming = q }; delivering = none }
  hand_over m (q, some _) s = record s { delivering = some m }

  offer : IncomingMessage → Session QI QO QS C → Session QI QO QS C
  unfolding hand_over
  offer m s = hand_over m (incoming_channel.try_send m s.hub.incoming) s

  serve_free : Arrival → Session QI QO QS C → Result SessionError (Session QI QO QS C)
  unfolding send_next subscribe_next offer
  serve_free check_due s = ok s
  serve_free poll_failed s = err connection_error
  serve_free (polled none) s = ok s
  serve_free (polled (some m)) s = ok (offer m s)
  serve_free outgoing_ready s = send_next (outgoing_channel.try_receive s.hub.outgoing) s
  serve_free sub_ready s = subscribe_next (sub_channel.try_receive s.hub.sub_queue) s

  -- A round of the loop. A future that is not ready leaves the session as it is.
  unfoldable pub serve : Arrival → Session QI QO QS C → Result SessionError (Session QI QO QS C)
  unfolding serve_free offer
  serve a s = elim s.delivering [ some m ↦ ok (offer m s) | none ↦ serve_free a s ]

  unfoldable pub serve_all :
      List Arrival → Session QI QO QS C → Result SessionError (Session QI QO QS C)
  unfolding serve
  serve_all [] s = ok s
  serve_all (a ∷ rest) s = elim (serve a s) [ err e ↦ err e | ok s' ↦ serve_all rest s' ]
