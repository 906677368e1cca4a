-- ===== src/Broker/Life/Histories.antt =====
-- src/infra/mqtt_client.rs: the subscriptions that are registered, through every history of the
-- connection and of the tasks around it.
use gate_link.Prelude.{◌≡◌, refl, ap, sym, inl, inr, List, [], ◌∷◌, ◌++◌, arith}
use mathlib.Core.Path.{subst}
use mathlib.Core.Logic.Or
use mathlib.Core.List.{append_assoc, Mem, Mem-prop, mem-append, mem-append_left, mem-append_right}
use gate_link.Time.{Ticks}
use gate_link.DeviceConfig.{AppConfig}
use gate_link.Broker.{
  Channel, queue_depth, outgoing_depth, OutgoingMessage, IncomingMessage, Subscription,
}
use gate_link.Broker.Queue.{sent_or_kept}
use gate_link.Broker.Connection.{Client, Hub, Session, register}
use gate_link.Broker.Attempts.{Network, attempt, subscribe}
use gate_link.Broker.Attempts.Retries.{attempt_begun}
use gate_link.Broker.Life.{
  Link, offline, online, Life, LifeEvent, attempted, arrived, publishing, subscribing, retried,
  received, noticed, hub_of, with_hub, on_hub, publish_to_hub, receive, wait_connected,
  subscribe_life, waiting_on, attempt_link, live, live_all,
}
use gate_link.Broker.Life.Registered.{
  grown, added, InForce, tried-InForce, serve_link-InForce, with_hub-InForce, retry-InForce,
}

module _ {QI QO QS C : Type 0} (incoming_channel : Channel queue_depth QI IncomingMessage)
    (outgoing_channel : Channel outgoing_depth QO OutgoingMessage)
    (sub_channel : Channel queue_depth QS Subscription) (client : Client C) where
  open sub_channel use {contents, try_send}

  abbrev Holds : Life QI QO QS C → Type 0
  Holds l = InForce incoming_channel outgoing_channel sub_channel client l.link l.waiting

  on_hub-Holds :
      (f : Hub QI QO QS → Hub QI QO QS) (l : Life QI QO QS C)
      → ((h : Hub QI QO QS) → (f h).subscriptions ≡ h.subscriptions)
      → ((h : Hub QI QO QS) → (f h).sub_queue ≡ h.sub_queue)
      → Holds l
      → Holds (on_hub f l)
  unfolding on_hub
  on_hub-Holds f l subs queued i =
      with_hub-InForce incoming_channel outgoing_channel sub_channel client (f (hub_of l.link))
        l.link l.waiting l.waiting (subs (hub_of l.link))
        (λ c. ap (λ q. (c ++ contents q) ++ l.waiting) (sym (queued (hub_of l.link)))) i

  pub subscriptions-publish_to_hub :
      (m : OutgoingMessage) (h : Hub QI QO QS)
      → (publish_to_hub outgoing_channel m h).subscriptions ≡ h.subscriptions
  unfolding publish_to_hub
  subscriptions-publish_to_hub m h = ground arith

  sub_queue-publish_to_hub :
      (m : OutgoingMessage) (h : Hub QI QO QS)
      → (publish_to_hub outgoing_channel m h).sub_queue ≡ h.sub_queue
  unfolding publish_to_hub
  sub_queue-publish_to_hub m h = ground arith

  subscribed_online :
      (u : Subscription) (s : Session QI QO QS C) (waiting : List Subscription)
      → Holds (record { link = online s; waiting = waiting })
      → Holds (
          subscribe_life incoming_channel outgoing_channel sub_channel client u
            (record { link = online s; waiting = waiting }))
  unfolding InForce subscribe_life subscribe register hub_of with_hub waiting_on
  subscribed_online u s waiting i =
      let c = client.subscribed s.client in
      let q = contents s.hub.sub_queue in
      elim (sent_or_kept sub_channel u s.hub.sub_queue) [
        | inl (done, grows) ↦ rw (done) (λ t m.
            subst (λ xs. Mem t ((c ++ xs) ++ waiting)) (sym grows)
              (Or.elim Mem-prop (mem-append.0 m) (λ old. grown c q waiting u t (i t old))
                (λ new. added c q waiting u t new)))
        | inr (back, same) ↦ rw (back) (λ t m.
            subst (λ xs. Mem t ((c ++ xs) ++ (waiting ++ u ∷ []))) (sym same)
              (Or.elim Mem-prop (mem-append.0 m)
                (λ old.
                  subst (Mem t) (append_assoc (c ++ q) waiting (u ∷ []))
                    (mem-append_left (u ∷ []) (i t old)))
                (λ new. mem-append_right (c ++ q) (mem-append_right waiting new))))
      ]

  subscribe_life-Holds :
      (u : Subscription) (link : Link QI QO QS C) (waiting : List Subscription)
      → Holds (record { link = link; waiting = waiting })
      → Holds (
          subscribe_life incoming_channel outgoing_channel sub_channel client u
            (record { link = link; waiting = waiting }))
  unfolding InForce subscribe_life with_hub
  subscribe_life-Holds u (offline h) waiting i = tt
  subscribe_life-Holds u (online s) waiting i = subscribed_online u s waiting i

  module _ {A N K : Type 0} ⦃ticks : Ticks⦄ (cfg : AppConfig) where
    attempt_link-InForce :
        (net : Network A N K C client) (link : Link QI QO QS C) (waiting : List Subscription)
        → InForce incoming_channel outgoing_channel sub_channel client link waiting
        → InForce incoming_channel outgoing_channel sub_channel client
            (attempt_link incoming_channel outgoing_channel sub_channel client cfg net link)
            waiting
    unfolding attempt_link
    attempt_link-InForce net (online s) waiting i = i
    attempt_link-InForce net (offline h) waiting i =
        tried-InForce incoming_channel outgoing_channel sub_channel client h
          (attempt incoming_channel outgoing_channel sub_channel client cfg net h) waiting
          (attempt_begun incoming_channel outgoing_channel sub_channel client cfg net h)

    live-Holds :
        (e : LifeEvent A N K C client) (l : Life QI QO QS C)
        → Holds l
        → Holds (live incoming_channel outgoing_channel sub_channel client cfg e l)
    unfolding live receive wait_connected
    live-Holds (attempted net) l i = attempt_link-InForce net l.link l.waiting i
    live-Holds (arrived a) l i =
        serve_link-InForce incoming_channel outgoing_channel sub_channel client a l.link l.waiting i
    live-Holds (publishing m) l i =
        on_hub-Holds (publish_to_hub outgoing_channel m) l (subscriptions-publish_to_hub m)
          (sub_queue-publish_to_hub m) i
    live-Holds (subscribing u) l i = subscribe_life-Holds u l.link l.waiting i
    live-Holds retried l i =
        retry-InForce incoming_channel outgoing_channel sub_channel client l.waiting l refl i
    live-Holds received l i = on_hub-Holds (receive incoming_channel) l (λ h. refl) (λ h. refl) i
    live-Holds noticed l i = on_hub-Holds wait_connected l (λ h. refl) (λ h. refl) i

    pub live_all-Holds :
        (es : List (LifeEvent A N K C client)) (l : Life QI QO QS C)
        → Holds l
        → Holds (live_all incoming_channel outgoing_channel sub_channel client cfg es l)
    unfolding live_all
    live_all-Holds [] l i = i
    live_all-Holds (e ∷ es) l i =
        live_all-Holds es (live incoming_channel outgoing_channel sub_channel client cfg e l)
          (live-Holds e l i)
