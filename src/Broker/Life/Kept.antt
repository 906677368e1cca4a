-- ===== src/Broker/Life/Kept.antt =====
-- src/infra/mqtt_client.rs: a subscription stays registered, and so in force in each session.
use gate_link.Prelude.{
  ◌≡◌, refl, sym, ◌∙◌, Option, none, some, List, [], ◌∷◌, ◌++◌, Result, ok, err,
}
use mathlib.Core.Path.{subst}
use mathlib.Core.List.{Mem, mem-append_left, mem-append_right, mem-cons_self}
use gate_link.Time.{Ticks}
use gate_link.DeviceConfig.{AppConfig}
use gate_link.Broker.{
  Channel, queue_depth, outgoing_depth, OutgoingMessage, IncomingMessage, Subscription,
}
use gate_link.Broker.Connection.{
  Client, Hub, Session, SessionError, Arrival, check_due, poll_failed, polled, outgoing_ready,
  sub_ready, register, serve,
}
use gate_link.Broker.Connection.Lines.{Serves, serve-Serves}
use gate_link.Broker.Attempts.{Network, attempt, subscribe}
use gate_link.Broker.Attempts.Retries.{attempt_begun, attempt_kept}
use gate_link.Broker.Life.{
  Link, offline, online, Life, LifeEvent, attempted, arrived, publishing, subscribing, retried,
  received, noticed, hub_of, with_hub, on_hub, receive, wait_connected, tried, after_failure,
  served, serve_link, subscribe_life, retry_one, retry, attempt_link, live, live_all,
}
use gate_link.Broker.Life.Registered.{InForce}
use gate_link.Broker.Life.Histories.{live_all-Holds, subscriptions-publish_to_hub}

module _ {QI QO QS C : Type 0} where
  abbrev subs_of : Link QI QO QS C → List Subscription
  subs_of link = (hub_of link).subscriptions

  subs_of-with_hub :
      (h : Hub QI QO QS) (link : Link QI QO QS C) → subs_of (with_hub h link) ≡ h.subscriptions
  unfolding hub_of with_hub
  subs_of-with_hub h (offline _) = refl
  subs_of-with_hub h (online s) = refl

  subs_of-tried :
      (ss : List Subscription) (r : Hub QI QO QS × Option (Session QI QO QS C))
      → (r.1 ≡ none → r.0.subscriptions ≡ ss)
      → ((s : Session QI QO QS C) → r.1 ≡ some s → s.hub.subscriptions ≡ ss)
      → subs_of (tried r) ≡ ss
  unfolding hub_of tried
  subs_of-tried ss (h, none) kept f = kept refl
  subs_of-tried ss (h, some s) kept f = f s refl

module _ {QI QO QS C : Type 0} (incoming_channel : Channel queue_depth QI IncomingMessage)
    (outgoing_channel : Channel outgoing_depth QO OutgoingMessage)
    (sub_channel : Channel queue_depth QS Subscription) (client : Client C) where
  subscriptions-after_failure :
      (a : Arrival) (s : Session QI QO QS C)
      → (after_failure incoming_channel outgoing_channel sub_channel client a s).subscriptions
        ≡ s.hub.subscriptions
  unfolding after_failure
  subscriptions-after_failure check_due s = refl
  subscriptions-after_failure poll_failed s = refl
  subscriptions-after_failure (polled _) s = refl
  subscriptions-after_failure outgoing_ready s = refl
  subscriptions-after_failure sub_ready s = refl

  subs_of-served :
      (a : Arrival) (s : Session QI QO QS C) (r : Result SessionError (Session QI QO QS C))
      → Serves incoming_channel outgoing_channel sub_channel client s r
      → subs_of (served incoming_channel outgoing_channel sub_channel client a s r)
        ≡ s.hub.subscriptions
  unfolding hub_of served
  subs_of-served a s (ok s') (same, _) = same
  subs_of-served a s (err _) k = subscriptions-after_failure a s

  subs_of-serve_link :
      (a : Arrival) (link : Link QI QO QS C)
      → subs_of (serve_link incoming_channel outgoing_channel sub_channel client a link)
        ≡ subs_of link
  unfolding hub_of serve_link
  subs_of-serve_link a (offline h) = refl
  subs_of-serve_link a (online s) =
      subs_of-served a s (serve incoming_channel outgoing_channel sub_channel client a s)
        (serve-Serves incoming_channel outgoing_channel sub_channel client a s)

  subs_of-retry_one :
      (u : Subscription) (us : List Subscription) (r : QS × Option Subscription)
      (l : Life QI QO QS C)
      → subs_of (retry_one incoming_channel outgoing_channel sub_channel client u us r l).link
        ≡ subs_of l.link
  unfolding retry_one
  subs_of-retry_one u us (q, none) l =
      subs_of-with_hub (record (hub_of l.link) { sub_queue = q }) l.link
  subs_of-retry_one u us (q, some _) l = refl

  subs_of-retry :
      (waiting : List Subscription) (l : Life QI QO QS C)
      → subs_of (retry incoming_channel outgoing_channel sub_channel client waiting l).link
        ≡ subs_of l.link
  unfolding retry
  subs_of-retry [] l = refl
  subs_of-retry (u ∷ us) l = subs_of-retry_one u us _ l

  subs_of-subscribe_life :
      (u : Subscription) (l : Life QI QO QS C)
      → subs_of (subscribe_life incoming_channel outgoing_channel sub_channel client u l).link
        ≡ subs_of l.link ++ u ∷ []
  unfolding subscribe_life subscribe register
  subs_of-subscribe_life u l = subs_of-with_hub _ l.link

  module _ {A N K : Type 0} ⦃ticks : Ticks⦄ (cfg : AppConfig) where
    subs_of-attempt_link :
        (net : Network A N K C client) (link : Link QI QO QS C)
        → subs_of (attempt_link incoming_channel outgoing_channel sub_channel client cfg net link)
          ≡ subs_of link
    unfolding hub_of attempt_link
    subs_of-attempt_link net (online s) = refl
    subs_of-attempt_link net (offline h) =
        subs_of-tried h.subscriptions
          (attempt incoming_channel outgoing_channel sub_channel client cfg net h)
          (attempt_kept incoming_channel outgoing_channel sub_channel client cfg net h)
          (λ s begun.
            let fresh =
              attempt_begun incoming_channel outgoing_channel sub_channel client cfg net h s
                begun in
            fresh.still_registered)

    -- Nothing is ever taken off the list of the subscriptions.
    still_registered :
        (t : Subscription) (e : LifeEvent A N K C client) (l : Life QI QO QS C)
        → Mem t (subs_of l.link)
        → Mem t (subs_of (live incoming_channel outgoing_channel sub_channel client cfg e l).link)
    unfolding live on_hub receive wait_connected
    still_registered t (attempted net) l m = subst (Mem t) (sym (subs_of-attempt_link net l.link)) m
    still_registered t (arrived a) l m = subst (Mem t) (sym (subs_of-serve_link a l.link)) m
    still_registered t (publishing x) l m =
        subst (Mem t)
          (sym (
            subs_of-with_hub _ l.link
            ∙ subscriptions-publish_to_hub incoming_channel outgoing_channel sub_channel client x
                (hub_of l.link)))
          m
    still_registered t (subscribing u) l m =
        subst (Mem t) (sym (subs_of-subscribe_life u l)) (mem-append_left (u ∷ []) m)
    still_registered t retried l m = subst (Mem t) (sym (subs_of-retry l.waiting l)) m
    still_registered t received l m =
        subst (Mem t) (sym (subs_of-with_hub (receive incoming_channel (hub_of l.link)) l.link)) m
    still_registered t noticed l m =
        subst (Mem t) (sym (subs_of-with_hub (wait_connected (hub_of l.link)) l.link)) m

    registered_later :
        (t : Subscription) (es : List (LifeEvent A N K C client)) (l : Life QI QO QS C)
        → Mem t (subs_of l.link)
        → Mem t
            (subs_of (live_all incoming_channel outgoing_channel sub_channel client cfg es l).link)
    unfolding live_all
    registered_later t [] l m = m
    registered_later t (e ∷ es) l m =
        registered_later t es (live incoming_channel outgoing_channel sub_channel client cfg e l)
          (still_registered t e l m)

    registered_since :
        (t : Subscription) (before after : List (LifeEvent A N K C client)) (l : Life QI QO QS C)
        → Mem t (
            subs_of
              (live_all incoming_channel outgoing_channel sub_channel client cfg
                (before ++ subscribing t ∷ after)
                l).link)
    unfolding live_all live
    registered_since t [] after l =
        registered_later t after
          (subscribe_life incoming_channel outgoing_channel sub_channel client t l)
          (subst (Mem t) (sym (subs_of-subscribe_life t l))
            (mem-append_right (subs_of l.link) mem-cons_self))
    registered_since t (e ∷ before) after l =
        registered_since t before after
          (live incoming_channel outgoing_channel sub_channel client cfg e l)

    -- Whenever a task has subscribed, online or offline, and whatever attempts, failures, publications
    -- and other subscriptions come before and after: while there is a session, its client has made
    -- that subscription, or the subscription is in the queue of the session, or it waits for room there.
    pub subscription_in_force :
        (h : Hub QI QO QS) (before after : List (LifeEvent A N K C client)) (t : Subscription)
        (s : Session QI QO QS C) (waiting : List Subscription)
        → live_all incoming_channel outgoing_channel sub_channel client cfg
            (before ++ subscribing t ∷ after)
            (record { link = offline h; waiting = [] })
          ≡ record { link = online s; waiting = waiting }
        → Mem t ((client.subscribed s.client ++ sub_channel.contents s.hub.sub_queue) ++ waiting)
    unfolding InForce hub_of
    subscription_in_force h before after t s waiting e =
        let start : Life QI QO QS C = record { link = offline h; waiting = [] } in
        let es = before ++ subscribing t ∷ after in
        subst
          (λ (l : Life QI QO QS C).
            InForce incoming_channel outgoing_channel sub_channel client l.link l.waiting)
          e (live_all-Holds incoming_channel outgoing_channel sub_channel client cfg es start tt) t
          (subst (λ (l : Life QI QO QS C). Mem t (subs_of l.link)) e
            (registered_since t before after start))
