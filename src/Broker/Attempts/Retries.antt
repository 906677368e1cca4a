-- ===== src/Broker/Attempts/Retries.antt =====
-- src/infra/mqtt_client.rs: the attempts of `task` to reach the broker, and the session they end in.
use gate_link.Prelude.{
  ◌≡◌, refl, sym, ◌∙◌, inl, inr, true, Option, Option-cases, none, some, List, [], ◌∷◌, ◌++◌,
  Result, ok, err, arith,
}
use mathlib.Core.Path.{subst}
use gate_link.Time.{Ticks}
use gate_link.DeviceConfig.{AppConfig}
use gate_link.Broker.{
  Channel, queue_depth, outgoing_depth, OutgoingMessage, IncomingMessage, Subscription,
}
use gate_link.Broker.Connection.{Client, Hub, Session, SessionError, resubscribe, begin_session}
use gate_link.Broker.Connection.Sessions.{Fresh, begin_session-Fresh, begun-Fresh}
use gate_link.Broker.Attempts.{
  options, Network, RunError, resolve, handshake, connect, subs_drained, started, attempt,
  reconnect,
}

module _ {A N K C : Type 0} {client : Client C} (net : Network A N K C client) ⦃ticks : Ticks⦄ where
  subscribed-handshake :
      (cfg : AppConfig) (r : Result N K) (c : C)
      → handshake net cfg r ≡ ok c
      → client.subscribed c ≡ []
  unfolding handshake
  subscribed-handshake cfg (err _) c h = absurd (ground arith)
  subscribed-handshake cfg (ok k) c h =
      ground (arith, net.subscribed-mqtt_connect k (options cfg) c)

  -- A client that is connected has subscribed to nothing.
  subscribed-connect : (cfg : AppConfig) (c : C) → connect net cfg ≡ ok c → client.subscribed c ≡ []
  unfolding connect
  subscribed-connect cfg c h = elim (Option-cases (resolve net cfg.mqtt_host)) [
    | inl e ↦ absurd (ground arith)
    | inr (a, e) ↦ subscribed-handshake cfg (net.tcp_connect a cfg.mqtt_port) c (ground arith)
  ]

module _ {QI QO QS C : Type 0} (incoming_channel : Channel queue_depth QI IncomingMessage)
    (outgoing_channel : Channel outgoing_depth QO OutgoingMessage)
    (sub_channel : Channel queue_depth QS Subscription) (client : Client C) where
  -- A session fresh on the statics `h`, of a client that has done nothing before it.
  abbrev pub IsFresh : Hub QI QO QS → Session QI QO QS C → Type 0
  IsFresh h s = Fresh incoming_channel outgoing_channel sub_channel client h [] s

  Fresh-same :
      (h h' : Hub QI QO QS) (s : Session QI QO QS C)
      → h'.subscriptions ≡ h.subscriptions
      → IsFresh h' s
      → IsFresh h s
  Fresh-same h h' s e f = record {
    all_subscribed = f.all_subscribed ∙ e;
    nothing_stale = f.nothing_stale;
    no_sub_left = f.no_sub_left;
    told = f.told;
    still_registered = f.still_registered ∙ e;
  }

  subscriptions-subs_drained :
      (h : Hub QI QO QS) → (subs_drained sub_channel h).subscriptions ≡ h.subscriptions
  unfolding subs_drained
  subscriptions-subs_drained h = ground arith

  -- A session that an attempt gives is fresh; an attempt that gives none keeps the subscriptions.
  WellAttempted : Hub QI QO QS → Hub QI QO QS × Option (Session QI QO QS C) → Type 0
  WellAttempted h (h', some s) = IsFresh h s
  WellAttempted h (h', none) = h'.subscriptions ≡ h.subscriptions

  started-WellAttempted :
      (h : Hub QI QO QS) (c : C) (o : Option (Result SessionError (Session QI QO QS C)))
      → client.subscribed c ≡ []
      → begin_session incoming_channel outgoing_channel sub_channel client h c ≡ o
      → WellAttempted h (started sub_channel h o)
  unfolding WellAttempted started
  started-WellAttempted h c (some (ok s)) new e =
      subst (λ old. Fresh incoming_channel outgoing_channel sub_channel client h old s) new
        (begun-Fresh incoming_channel outgoing_channel sub_channel client h c s e)
  started-WellAttempted h c (some (err x)) new e = subscriptions-subs_drained h
  started-WellAttempted h c none new e = refl

module _ {QI QO QS C : Type 0} (incoming_channel : Channel queue_depth QI IncomingMessage)
    (outgoing_channel : Channel outgoing_depth QO OutgoingMessage)
    (sub_channel : Channel queue_depth QS Subscription) (client : Client C) (h : Hub QI QO QS) where
  abbrev Well : Hub QI QO QS × Option (Session QI QO QS C) → Type 0
  Well r = WellAttempted incoming_channel outgoing_channel sub_channel client h r

  attempt_some :
      (r : Hub QI QO QS × Option (Session QI QO QS C)) (s : Session QI QO QS C)
      → r.1 ≡ some s
      → Well r
      → Fresh incoming_channel outgoing_channel sub_channel client h [] s
  unfolding WellAttempted
  attempt_some (h', some t) s e f =
      subst (Fresh incoming_channel outgoing_channel sub_channel client h []) (ground arith) f
  attempt_some (h', none) s e f = absurd (ground arith)

  attempt_none :
      (r : Hub QI QO QS × Option (Session QI QO QS C))
      → r.1 ≡ none
      → Well r
      → r.0.subscriptions ≡ h.subscriptions
  unfolding WellAttempted
  attempt_none (h', some t) e f = absurd (ground arith)
  attempt_none (h', none) e f = f

module _ {QI QO QS A N K C : Type 0} (incoming_channel : Channel queue_depth QI IncomingMessage)
    (outgoing_channel : Channel outgoing_depth QO OutgoingMessage)
    (sub_channel : Channel queue_depth QS Subscription) (client : Client C) ⦃ticks : Ticks⦄
    (cfg : AppConfig) where
  connected_well :
      (net : Network A N K C client) (h : Hub QI QO QS) (r : Result RunError C)
      → connect net cfg ≡ r
      → WellAttempted incoming_channel outgoing_channel sub_channel client h (elim r [
        | err _ ↦ (h, none)
        | ok c ↦
            started sub_channel h
              (begin_session incoming_channel outgoing_channel sub_channel client h c)
      ])
  unfolding WellAttempted
  connected_well net h (err _) e = refl
  connected_well net h (ok c) e =
      started-WellAttempted incoming_channel outgoing_channel sub_channel client h c _
        (subscribed-connect net cfg c e) refl

  attempt-WellAttempted :
      (net : Network A N K C client) (h : Hub QI QO QS)
      → WellAttempted incoming_channel outgoing_channel sub_channel client h
          (attempt incoming_channel outgoing_channel sub_channel client cfg net h)
  unfolding attempt
  attempt-WellAttempted net h = connected_well net h (connect net cfg) refl

  pub attempt_begun :
      (net : Network A N K C client) (h : Hub QI QO QS) (s : Session QI QO QS C)
      → (attempt incoming_channel outgoing_channel sub_channel client cfg net h).1 ≡ some s
      → Fresh incoming_channel outgoing_channel sub_channel client h [] s
  attempt_begun net h s begun =
      attempt_some incoming_channel outgoing_channel sub_channel client h
        (attempt incoming_channel outgoing_channel sub_channel client cfg net h) s begun
        (attempt-WellAttempted net h)

  pub attempt_kept :
      (net : Network A N K C client) (h : Hub QI QO QS)
      → (attempt incoming_channel outgoing_channel sub_channel client cfg net h).1 ≡ none
      → (attempt incoming_channel outgoing_channel sub_channel client cfg net h).0.subscriptions
        ≡ h.subscriptions
  attempt_kept net h failed =
      attempt_none incoming_channel outgoing_channel sub_channel client h
        (attempt incoming_channel outgoing_channel sub_channel client cfg net h) failed
        (attempt-WellAttempted net h)

  -- What an attempt that succeeds gives.
  good_attempt :
      (net : Network A N K C client) (h : Hub QI QO QS) (c : C)
      → connect net cfg ≡ ok c
      → (resubscribe client h.subscriptions c).1 ≡ true
      → (s : Session QI QO QS C) × (attempt incoming_channel outgoing_channel sub_channel client cfg
            net h
          ≡ (s.hub, some s))
        × Fresh incoming_channel outgoing_channel sub_channel client h (client.subscribed c) s
  unfolding attempt
  good_attempt net h c e done =
      let (s, begun, fresh) =
        begin_session-Fresh incoming_channel outgoing_channel sub_channel client h c done in
      (s, rw (e, attempt) (rw (begun, started) refl), fresh)

  -- The attempts, one after the other, until one begins a session.
  pub reconnect-Fresh :
      (before after : List (Network A N K C client)) (net : Network A N K C client)
      (h : Hub QI QO QS) (c : C)
      → connect net cfg ≡ ok c
      → (resubscribe client h.subscriptions c).1 ≡ true
      → (s : Session QI QO QS C) × (reconnect incoming_channel outgoing_channel sub_channel client
            cfg
            (before ++ net ∷ after)
            h
          ≡ some s)
        × Fresh incoming_channel outgoing_channel sub_channel client h [] s
  unfolding reconnect
  reconnect-Fresh [] after net h c e done =
      let (s, begun, fresh) = good_attempt net h c e done in
      (
        s,
        rw (begun, reconnect) refl,
        subst (λ old. Fresh incoming_channel outgoing_channel sub_channel client h old s)
            (subscribed-connect net cfg c e) fresh,
      )
  reconnect-Fresh (first ∷ before) after net h c e done =
      let r = attempt incoming_channel outgoing_channel sub_channel client cfg first h in
      let well = attempt-WellAttempted first h in
      elim (Option-cases r.1) [
        | inr (s, begun) ↦ (
          s,
          rw (begun, reconnect) refl,
          attempt_some incoming_channel outgoing_channel sub_channel client h r s begun well,
        )
        | inl failed ↦
            let same =
              attempt_none incoming_channel outgoing_channel sub_channel client h r failed well in
            let (s, begun, fresh) =
              reconnect-Fresh before after net r.0 c e
                (subst (λ subs. (resubscribe client subs c).1 ≡ true) (sym same) done) in
            (
              s,
              rw (failed, reconnect) begun,
              Fresh-same incoming_channel outgoing_channel sub_channel client h r.0 s same fresh,
            )
      ]
