-- ===== src/Broker/Connection/Sessions.antt =====
-- src/infra/mqtt_client.rs: the start of `run_once`, and what a connection begins with.
use gate_link.Prelude.{
  ◌+◌, ◌≡◌, refl, ap, sym, ◌∙◌, inl, inr, Bool, true, false, Bool-cases, none, some, List, [], ◌∷◌,
  ◌++◌, ok, err, arith,
}
use mathlib.Core.Path.{subst}
use mathlib.Core.List.{append-nil, append_assoc}
use gate_link.Broker.{
  Channel, queue_depth, outgoing_depth, OutgoingMessage, IncomingMessage, Subscription, drain,
}
use gate_link.Broker.Drain.{drain-Emptied}
use gate_link.Broker.Connection.{
  Client, Hub, Session, resubscribe_failed, resubscribe, announce, resubscribed, begin_session,
}

module _ {C : Type 0} (client : Client C) where
  resubscribe-subscribed :
      (ss : List Subscription) (c : C)
      → (resubscribe client ss c).1 ≡ true
      → client.subscribed (resubscribe client ss c).0 ≡ client.subscribed c ++ ss
  unfolding resubscribe
  resubscribe-subscribed [] c h = sym (append-nil (client.subscribed c))
  resubscribe-subscribed (s ∷ ss) c h = elim (Bool-cases (client.subscribe_to s c).1) [
    | inl e ↦
        let rest : (resubscribe client ss (client.subscribe_to s c).0).1 ≡ true = ground arith in
        rw (e, resubscribe)
          (resubscribe-subscribed ss (client.subscribe_to s c).0 rest
            ∙ ap (λ xs. xs ++ ss) (client.subscribed-subscribe_to s c e)
            ∙ append_assoc (client.subscribed c) (s ∷ []) ss)
    | inr e ↦ absurd (ground arith)
  ]

module _ {QI QO QS C : Type 0} (incoming_channel : Channel queue_depth QI IncomingMessage)
    (outgoing_channel : Channel outgoing_depth QO OutgoingMessage)
    (sub_channel : Channel queue_depth QS Subscription) (client : Client C) where
  resubscribed-ok :
      (h : Hub QI QO QS) (r : C × Bool) (q : QO)
      → r.1 ≡ true
      → drain outgoing_channel (outgoing_depth + 1) h.outgoing ≡ some q
      → resubscribed incoming_channel outgoing_channel sub_channel client h r
        ≡ some (
            ok (record {
              hub = record h { outgoing = q; connected = true };
              client = r.0;
              delivering = none;
            }))
  unfolding resubscribed announce
  resubscribed-ok h (c, true) q done e = rw (e, announce) refl
  resubscribed-ok h (c, false) q done e = absurd (ground arith)

  -- A session that has just begun on the hub `h`, with a client that had sent `old`.
  pub record Fresh (h : Hub QI QO QS) (old : List Subscription) (s : Session QI QO QS C)
      : Type 0 where
    pub all_subscribed : client.subscribed s.client ≡ old ++ h.subscriptions
    pub nothing_stale : outgoing_channel.contents s.hub.outgoing ≡ []
    pub no_sub_left : sub_channel.contents s.hub.sub_queue ≡ []
    pub told : s.hub.connected ≡ true
    pub still_registered : s.hub.subscriptions ≡ h.subscriptions

  -- A connection begins, without blocking, when the broker takes the subscriptions: the client has
  -- then subscribed to each registered topic, in order, those registered while offline included;
  -- nothing that piled up while offline is left to be sent, no subscription is left to be made
  -- twice, and the app is told.
  pub begin_session-Fresh :
      (h : Hub QI QO QS) (c : C)
      → (resubscribe client h.subscriptions c).1 ≡ true
      → (s : Session QI QO QS C) × (begin_session incoming_channel outgoing_channel sub_channel
            client h c
          ≡ some (ok s))
        × Fresh h (client.subscribed c) s
  unfolding begin_session
  begin_session-Fresh h c done =
      let (qs, ends_s, empty_s) =
        drain-Emptied sub_channel (queue_depth + 1) h.sub_queue
          (omega (arith, sub_channel.bounded h.sub_queue)) in
      let (qo, ends_o, empty_o) =
        drain-Emptied outgoing_channel (outgoing_depth + 1) h.outgoing
          (omega (arith, outgoing_channel.bounded h.outgoing)) in
      let h' = record h { sub_queue = qs } in
      let r = resubscribe client h.subscriptions c in
      (
        record {
          hub = record h' { outgoing = qo; connected = true };
          client = r.0;
          delivering = none;
        },
        rw (ends_s, begin_session) (resubscribed-ok h' r qo done ends_o),
        record {
          all_subscribed = resubscribe-subscribed client h.subscriptions c done;
          nothing_stale = empty_o;
          no_sub_left = empty_s;
          told = refl;
          still_registered = refl;
        },
      )

  resubscribed-failed :
      (h : Hub QI QO QS) (r : C × Bool)
      → r.1 ≡ false
      → resubscribed incoming_channel outgoing_channel sub_channel client h r
        ≡ some (err resubscribe_failed)
  unfolding resubscribed
  resubscribed-failed h (c, true) e = absurd (ground arith)
  resubscribed-failed h (c, false) e = refl

  begin_session-failed :
      (h : Hub QI QO QS) (c : C)
      → (resubscribe client h.subscriptions c).1 ≡ false
      → begin_session incoming_channel outgoing_channel sub_channel client h c
        ≡ some (err resubscribe_failed)
  unfolding begin_session
  begin_session-failed h c e =
      let (q, ends, _) =
        drain-Emptied sub_channel (queue_depth + 1) h.sub_queue
          (omega (arith, sub_channel.bounded h.sub_queue)) in
      rw (ends, begin_session)
        (resubscribed-failed (record h { sub_queue = q }) (resubscribe client h.subscriptions c) e)

  -- A session that has begun is fresh.
  pub begun-Fresh :
      (h : Hub QI QO QS) (c : C) (s : Session QI QO QS C)
      → begin_session incoming_channel outgoing_channel sub_channel client h c ≡ some (ok s)
      → Fresh h (client.subscribed c) s
  begun-Fresh h c s e = elim (Bool-cases (resubscribe client h.subscriptions c).1) [
    | inl done ↦
        let (s', e', fresh) = begin_session-Fresh h c done in
        let same : s' ≡ s = ground (arith, e, e') in
        subst (Fresh h (client.subscribed c)) same fresh
    | inr failed ↦ absurd (ground (arith, begin_session-failed h c failed))
  ]
