-- ===== src/Broker/Attempts.antt =====
-- src/infra/mqtt_client.rs: the transport, `resolve`, `run_once` up to the CONNECT, and the loop of
-- `task`; and the subscriptions of src/app/mqtt_handler.rs.
-- `Network` stands for what the network stack, the resolver, and the client of
-- vendor/mqtt-async-embedded answer during one attempt, which begins when the network is up.
pub mod Retries
pub mod Commands
mod Examples
use gate_link.Prelude.{
  ℕ, zero, suc, ◌+◌, ◌≡◌, Option, none, some, List, [], ◌∷◌, String, utf8, Result, ok, err,
}
use gate_link.Time.{Ticks}
use gate_link.DeviceConfig.{AppConfig}
use gate_link.Mqtt.{command_topics}
use gate_link.Broker.{
  Channel, queue_depth, outgoing_depth, OutgoingMessage, IncomingMessage, Subscription,
  at_least_once, drain,
}
use gate_link.Broker.Connection.{Client, Hub, Session, SessionError, register, begin_session}

-- `TcpTransport::recv`, on what the socket reads: no bytes are the end of the stream.
pub data TransportError (N : Type 0) : Type 0 where
  connection_reset : TransportError N
  socket : N → TransportError N

unfoldable pub recv : {N : Type 0} → Result N ℕ → Result (TransportError N) ℕ
recv (ok zero) = err connection_reset
recv (ok (suc n)) = ok (suc n)
recv (err e) = err (socket e)

pub data RunError : Type 0 where
  could_not_resolve tcp_connect_failed mqtt_connect_failed : RunError

pub record MqttOptions : Type 0 where
  pub client_id : String
  pub host : String
  pub port : ℕ
  pub keep_alive : ℕ
  pub credentials : Option (String × List ℕ)

pub record Network (A N K C : Type 0) (client : Client C) : Type 0 where
  pub parse_address : String → Option A
  pub dns_query : String → Result N (List A)
  pub tcp_connect : A → ℕ → Result N K
  pub mqtt_connect : K → MqttOptions → Result N C
  pub subscribed-mqtt_connect :
      (k : K) (o : MqttOptions) (c : C) → mqtt_connect k o ≡ ok c → client.subscribed c ≡ []

credentials_of : Option String → Option String → Option (String × List ℕ)
credentials_of (some username) (some password) = some (username, utf8 password)
credentials_of (some username) none = none
credentials_of none password = none

module _ ⦃ticks : Ticks⦄ where
  unfoldable pub options : AppConfig → MqttOptions
  unfolding credentials_of
  options cfg = record {
    client_id = "mqtt_gate";
    host = cfg.mqtt_host;
    port = cfg.mqtt_port;
    keep_alive = ticks.from_secs 50;
    credentials = credentials_of cfg.mqtt_username cfg.mqtt_password;
  }

first_of : {A N : Type 0} → Result N (List A) → Option A
first_of (ok []) = none
first_of (ok (a ∷ _)) = some a
first_of (err _) = none

module _ {A N K C : Type 0} {client : Client C} (net : Network A N K C client) where
  unfoldable pub resolve : String → Option A
  unfolding first_of
  resolve host = elim (net.parse_address host) [
    | some a ↦ some a
    | none ↦ first_of (net.dns_query host)
  ]

  module _ ⦃ticks : Ticks⦄ where
    handshake : AppConfig → Result N K → Result RunError C
    unfolding options
    handshake cfg (err _) = err tcp_connect_failed
    handshake cfg (ok k) = elim (net.mqtt_connect k (options cfg)) [
      | err _ ↦ err mqtt_connect_failed
      | ok c ↦ ok c
    ]

    unfoldable pub connect : AppConfig → Result RunError C
    unfolding resolve handshake
    connect cfg = elim (resolve cfg.mqtt_host) [
      | none ↦ err could_not_resolve
      | some a ↦ handshake cfg (net.tcp_connect a cfg.mqtt_port)
    ]

module _ {QI QO QS : Type 0} (sub_channel : Channel queue_depth QS Subscription) where
  -- A start of the session that fails has emptied the queue of subscriptions.
  subs_drained : Hub QI QO QS → Hub QI QO QS
  subs_drained h = elim (drain sub_channel (queue_depth + 1) h.sub_queue) [
    | none ↦ h
    | some q ↦ record h { sub_queue = q }
  ]

  started :
      {C : Type 0}
      → Hub QI QO QS
      → Option (Result SessionError (Session QI QO QS C))
      → Hub QI QO QS × Option (Session QI QO QS C)
  unfolding subs_drained
  started h (some (ok s)) = (s.hub, some s)
  started h (some (err _)) = (subs_drained h, none)
  started h none = (h, none)

  -- `subscribe`: what is left waits for room in the queue.
  unfoldable pub subscribe : Subscription → Hub QI QO QS → Hub QI QO QS × Option Subscription
  subscribe s h =
      let h' = register s h in
      let (q, rejected) = sub_channel.try_send s h'.sub_queue in
      (record h' { sub_queue = q }, rejected)

  -- The start of the MQTT handler; it goes on as long as there is room in the queue.
  unfoldable pub subscribe_all : List String → Hub QI QO QS → Option (Hub QI QO QS)
  unfolding subscribe
  subscribe_all [] h = some h
  subscribe_all (topic ∷ topics) h =
      let (h', waiting) = subscribe (record { topic = topic; qos = at_least_once }) h in
      let rest = subscribe_all topics h' in elim waiting [ none ↦ rest | some _ ↦ none ]

  unfoldable pub begin_handler : Hub QI QO QS → Option (Hub QI QO QS)
  begin_handler h = subscribe_all command_topics h

module _ {QI QO QS A N K C : Type 0} (incoming_channel : Channel queue_depth QI IncomingMessage)
    (outgoing_channel : Channel outgoing_depth QO OutgoingMessage)
    (sub_channel : Channel queue_depth QS Subscription) (client : Client C) where
  module _ ⦃ticks : Ticks⦄ (cfg : AppConfig) where
    -- `run_once` up to its loop: the statics behind it, and the session if there is one.
    unfoldable pub attempt :
        Network A N K C client → Hub QI QO QS → Hub QI QO QS × Option (Session QI QO QS C)
    unfolding started
    attempt net h = elim (connect net cfg) [
      | err _ ↦ (h, none)
      | ok c ↦
          started sub_channel h
            (begin_session incoming_channel outgoing_channel sub_channel client h c)
    ]

    -- The loop of `task`, attempt after attempt, up to the first session.
    unfoldable pub reconnect :
        List (Network A N K C client) → Hub QI QO QS → Option (Session QI QO QS C)
    unfolding attempt
    reconnect [] h = none
    reconnect (net ∷ nets) h =
        let (h', begun) = attempt net h in
        let again = reconnect nets h' in elim begun [ some s ↦ some s | none ↦ again ]
