-- ===== src/Broker/Attempts/Commands.antt =====
-- src/app/mqtt_handler.rs and src/infra/mqtt_client.rs: the command topics of the device, from the
-- start of the handler to a session.
use gate_link.Prelude.{
  ◌+◌, ◌≤◌, ◌≡◌, refl, ap, sym, ◌∙◌, true, some, List, [], ◌∷◌, ◌++◌, map, String, length,
  length-append, ok, arith,
}
use mathlib.Core.Path.{subst}
use mathlib.Core.List.{append-nil, append_assoc}
use gate_link.Time.{Ticks}
use gate_link.DeviceConfig.{AppConfig}
use gate_link.Mqtt.{command_topics}
use gate_link.Broker.{
  Channel, queue_depth, outgoing_depth, OutgoingMessage, IncomingMessage, Subscription,
  at_least_once,
}
use gate_link.Broker.Connection.{Client, Hub, Session, register, resubscribe}
use gate_link.Broker.Attempts.{Network, connect, reconnect, subscribe, subscribe_all, begin_handler}
use gate_link.Broker.Attempts.Retries.{reconnect-Fresh}

abbrev pub to_topic : String → Subscription
to_topic topic = record { topic = topic; qos = at_least_once }

module _ {QI QO QS : Type 0} (sub_channel : Channel queue_depth QS Subscription) where
  open sub_channel use {contents, try_send}

  -- There is room for all of them.
  subscribe_all-registers :
      (topics : List String) (h : Hub QI QO QS)
      → length (contents h.sub_queue) + length topics ≤ queue_depth
      → (h' : Hub QI QO QS) × (subscribe_all sub_channel topics h ≡ some h')
        × (h'.subscriptions ≡ h.subscriptions ++ map to_topic topics)
  unfolding subscribe_all subscribe register
  subscribe_all-registers [] h room = (h, refl, sym (append-nil h.subscriptions))
  subscribe_all-registers (topic ∷ topics) h room =
      let s = to_topic topic in
      let (sent, grown) = sub_channel.try_send-room s h.sub_queue (omega arith) in
      let next : Hub QI QO QS = record h {
        subscriptions = h.subscriptions ++ s ∷ [];
        sub_queue = (try_send s h.sub_queue).0;
      } in
      let (h', rest, all) =
        subscribe_all-registers topics next
          (omega (arith, ap length grown, length-append (contents h.sub_queue) (s ∷ []))) in
      (
        h',
        rw (sent, subscribe_all) rest,
        all ∙ append_assoc h.subscriptions (s ∷ []) (map to_topic topics),
      )

module _ {QI QO QS A N K C : Type 0} (incoming_channel : Channel queue_depth QI IncomingMessage)
    (outgoing_channel : Channel outgoing_depth QO OutgoingMessage)
    (sub_channel : Channel queue_depth QS Subscription) (client : Client C) ⦃ticks : Ticks⦄
    (cfg : AppConfig) where
  -- The handler starts when nothing is subscribed yet, and finds room for its topics; then, after any
  -- number of attempts that may fail and one that connects, and whose subscriptions the broker takes:
  -- there is a session, its client has subscribed to the command topics of the device, in order and
  -- to nothing else, no older message is left to be sent, and the app is told.
  pub commands_subscribed :
      (h : Hub QI QO QS) (before after : List (Network A N K C client))
      (net : Network A N K C client) (c : C)
      → h.subscriptions ≡ []
      → sub_channel.contents h.sub_queue ≡ []
      → connect net cfg ≡ ok c
      → (resubscribe client (map to_topic command_topics) c).1 ≡ true
      → (h' : Hub QI QO QS) × (s : Session QI QO QS C) × (begin_handler sub_channel h ≡ some h')
        × (reconnect incoming_channel outgoing_channel sub_channel client cfg
              (before ++ net ∷ after)
              h'
            ≡ some s)
        × (client.subscribed s.client ≡ map to_topic command_topics)
        × (outgoing_channel.contents s.hub.outgoing ≡ [])
        × (s.hub.connected ≡ true)
  unfolding begin_handler
  commands_subscribed h before after net c none_yet empty e taken =
      let (h', registered, all) =
        subscribe_all-registers sub_channel command_topics h (omega (arith, ap length empty)) in
      let subs : h'.subscriptions ≡ map to_topic command_topics =
        all ∙ ap (λ xs. xs ++ map to_topic command_topics) none_yet in
      let (s, begun, fresh) =
        reconnect-Fresh incoming_channel outgoing_channel sub_channel client cfg before after net h'
          c e (subst (λ xs. (resubscribe client xs c).1 ≡ true) (sym subs) taken) in
      (h', s, registered, begun, fresh.all_subscribed ∙ subs, fresh.nothing_stale, fresh.told)
