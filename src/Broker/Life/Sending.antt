-- ===== src/Broker/Life/Sending.antt =====
-- src/infra/mqtt_client.rs: the order of what is sent in a session, with publications in between.
use gate_link.Prelude.{
  ◌≡◌, refl, sym, Bool, true, false, Option, none, some, List, [], ◌∷◌, ◌++◌, Result, ok, err,
  arith,
}
use mathlib.Core.Path.{subst}
use mathlib.Core.List.{append-nil, append_assoc, Sublist}
use mathlib.Core.List.Sublist
use gate_link.Time.{Ticks}
use gate_link.DeviceConfig.{AppConfig}
use gate_link.Broker.{
  Channel, queue_depth, outgoing_depth, OutgoingMessage, IncomingMessage, Subscription,
}
use gate_link.Broker.Queue.{keep_last, keep_last-Sublist, publish-keep_last}
use gate_link.Broker.Connection.{Client, Hub, Session, SessionError, Arrival, register, serve}
use gate_link.Broker.Connection.Order.{in_order, Keeps, serve-Keeps}
use gate_link.Broker.Attempts.{subscribe}
use gate_link.Broker.Life.{
  Link, offline, online, Life, LifeEvent, attempted, arrived, publishing, subscribing, retried,
  received, noticed, hub_of, with_hub, on_hub, publish_to_hub, receive, wait_connected, served,
  serve_link, subscribe_life, retry_one, retry, live, live_all,
}

module _ {A N K C : Type 0} {client : Client C} where
  abbrev pub is_attempt : LifeEvent A N K C client → Bool
  is_attempt (attempted _) = true
  is_attempt _ = false

  -- No attempt to connect in between, so that a session that is lost stays lost.
  abbrev pub NoAttempt : List (LifeEvent A N K C client) → Type 0
  NoAttempt [] = Unit
  NoAttempt (e ∷ es) = (is_attempt e ≡ false) × NoAttempt es

  abbrev pub message_of : LifeEvent A N K C client → List OutgoingMessage
  message_of (publishing m) = m ∷ []
  message_of _ = []

  abbrev pub messages : List (LifeEvent A N K C client) → List OutgoingMessage
  messages [] = []
  messages (e ∷ es) = message_of e ++ messages es

module _ {QI QO QS C : Type 0} (incoming_channel : Channel queue_depth QI IncomingMessage)
    (outgoing_channel : Channel outgoing_depth QO OutgoingMessage)
    (sub_channel : Channel queue_depth QS Subscription) (client : Client C) where
  abbrev ordered : Session QI QO QS C → List OutgoingMessage
  ordered s = in_order incoming_channel outgoing_channel sub_channel client s

  abbrev InOrder : Link QI QO QS C → List OutgoingMessage → Type 0
  InOrder (offline h) ms = Unit
  InOrder (online s) ms = Sublist (ordered s) ms

  served-InOrder :
      (a : Arrival) (s : Session QI QO QS C) (r : Result SessionError (Session QI QO QS C))
      (ms : List OutgoingMessage)
      → Keeps incoming_channel outgoing_channel sub_channel client s r
      → Sublist (ordered s) ms
      → InOrder (served incoming_channel outgoing_channel sub_channel client a s r) ms
  unfolding served
  served-InOrder a s (ok s') ms k i = subst (λ xs. Sublist xs ms) (sym k) i
  served-InOrder a s (err _) ms k i = tt

  serve_link-InOrder :
      (a : Arrival) (link : Link QI QO QS C) (ms : List OutgoingMessage)
      → InOrder link ms
      → InOrder (serve_link incoming_channel outgoing_channel sub_channel client a link) ms
  unfolding serve_link
  serve_link-InOrder a (offline h) ms i = tt
  serve_link-InOrder a (online s) ms i =
      served-InOrder a s (serve incoming_channel outgoing_channel sub_channel client a s) ms
        (serve-Keeps incoming_channel outgoing_channel sub_channel client a s) i

  with_hub-InOrder :
      (h : Hub QI QO QS) (link : Link QI QO QS C) (ms : List OutgoingMessage)
      → h.outgoing ≡ (hub_of link).outgoing
      → InOrder link ms
      → InOrder (with_hub h link) ms
  unfolding hub_of with_hub
  with_hub-InOrder h (offline _) ms e i = tt
  with_hub-InOrder h (online s) ms e i =
      subst (λ q. Sublist (client.published s.client ++ outgoing_channel.contents q) ms) (sym e) i

  published-InOrder :
      (m : OutgoingMessage) (link : Link QI QO QS C) (ms : List OutgoingMessage)
      → InOrder link ms
      → InOrder (with_hub (publish_to_hub outgoing_channel m (hub_of link)) link) (ms ++ m ∷ [])
  unfolding hub_of with_hub publish_to_hub
  published-InOrder m (offline h) ms i = tt
  published-InOrder m (online s) ms i =
      let sent = client.published s.client in
      let queued = outgoing_channel.contents s.hub.outgoing in
      let (q, done, kept) = publish-keep_last outgoing_channel (omega arith) m s.hub.outgoing in
      rw (done, publish_to_hub)
        (Sublist.trans
          (subst (λ xs. Sublist (sent ++ xs) ((sent ++ queued) ++ m ∷ [])) (sym kept)
            (subst (Sublist (sent ++ keep_last outgoing_depth (queued ++ m ∷ [])))
              (sym (append_assoc sent queued (m ∷ [])))
              (Sublist.append (Sublist.refl sent)
                (keep_last-Sublist outgoing_depth (queued ++ m ∷ [])))))
          (Sublist.append i (Sublist.refl (m ∷ []))))

  retry_one-InOrder :
      (u : Subscription) (us : List Subscription) (r : QS × Option Subscription)
      (l : Life QI QO QS C) (ms : List OutgoingMessage)
      → InOrder l.link ms
      → InOrder (retry_one incoming_channel outgoing_channel sub_channel client u us r l).link ms
  unfolding retry_one
  retry_one-InOrder u us (q, some _) l ms i = i
  retry_one-InOrder u us (q, none) l ms i =
      with_hub-InOrder (record (hub_of l.link) { sub_queue = q }) l.link ms refl i

  retry-InOrder :
      (waiting : List Subscription) (l : Life QI QO QS C) (ms : List OutgoingMessage)
      → InOrder l.link ms
      → InOrder (retry incoming_channel outgoing_channel sub_channel client waiting l).link ms
  unfolding retry
  retry-InOrder [] l ms i = i
  retry-InOrder (u ∷ us) l ms i = retry_one-InOrder u us _ l ms i

  module _ {A N K : Type 0} ⦃ticks : Ticks⦄ (cfg : AppConfig) where
    live-InOrder :
        (e : LifeEvent A N K C client) (l : Life QI QO QS C) (ms : List OutgoingMessage)
        → is_attempt e ≡ false
        → InOrder l.link ms
        → InOrder
            (live incoming_channel outgoing_channel sub_channel client cfg e l).link
            (ms ++ message_of e)
    unfolding live on_hub receive wait_connected subscribe_life subscribe register
    live-InOrder (attempted net) l ms h i = absurd (ground arith)
    live-InOrder (publishing m) l ms h i = published-InOrder m l.link ms i
    live-InOrder (arrived a) l ms h i =
        subst (InOrder _) (sym (append-nil ms)) (serve_link-InOrder a l.link ms i)
    live-InOrder (subscribing u) l ms h i =
        subst (InOrder _) (sym (append-nil ms)) (with_hub-InOrder _ l.link ms refl i)
    live-InOrder retried l ms h i =
        subst (InOrder _) (sym (append-nil ms)) (retry-InOrder l.waiting l ms i)
    live-InOrder received l ms h i =
        subst (InOrder _) (sym (append-nil ms))
          (with_hub-InOrder (receive incoming_channel (hub_of l.link)) l.link ms refl i)
    live-InOrder noticed l ms h i =
        subst (InOrder _) (sym (append-nil ms))
          (with_hub-InOrder (wait_connected (hub_of l.link)) l.link ms refl i)

    live_all-InOrder :
        (es : List (LifeEvent A N K C client)) (l : Life QI QO QS C) (ms : List OutgoingMessage)
        → NoAttempt es
        → InOrder l.link ms
        → InOrder
            (live_all incoming_channel outgoing_channel sub_channel client cfg es l).link
            (ms ++ messages es)
    unfolding live_all
    live_all-InOrder [] l ms h i = subst (InOrder l.link) (sym (append-nil ms)) i
    live_all-InOrder (e ∷ es) l ms (h, hs) i =
        subst (InOrder _) (append_assoc ms (message_of e) (messages es)) (
          live_all-InOrder es (live incoming_channel outgoing_channel sub_channel client cfg e l)
            (ms ++ message_of e) hs (live-InOrder e l ms h i))

    -- As long as a session lasts, through whatever arrives, is due, is published or subscribed: what
    -- the client has sent, followed by what waits in the queue, is a part, in the same order, of what
    -- it had sent and queued before and the messages published since. So a full queue loses messages,
    -- but none is sent twice, before an earlier one, or without having been published.
    pub sent_in_order :
        (es : List (LifeEvent A N K C client)) (s s' : Session QI QO QS C)
        (waiting waiting' : List Subscription)
        → NoAttempt es
        → live_all incoming_channel outgoing_channel sub_channel client cfg es
            (record { link = online s; waiting = waiting })
          ≡ record { link = online s'; waiting = waiting' }
        → Sublist
            (client.published s'.client ++ outgoing_channel.contents s'.hub.outgoing)
            ((client.published s.client ++ outgoing_channel.contents s.hub.outgoing) ++ messages es)
    sent_in_order es s s' waiting waiting' h e =
        subst (λ (l : Life QI QO QS C). InOrder l.link (ordered s ++ messages es)) e
          (live_all-InOrder es (record { link = online s; waiting = waiting }) (ordered s) h
            (Sublist.refl (ordered s)))
