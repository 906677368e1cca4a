-- ===== src/Broker/Life.antt =====
-- src/infra/mqtt_client.rs: the life of the connection, from attempt to attempt, next to the tasks
-- that publish, subscribe, receive and wait for a connect.
-- What the other tasks do while a session starts is taken to come before or after the start.
pub mod Registered
pub mod Histories
pub mod Kept
pub mod Sending
mod Examples
use gate_link.Prelude.{false, Option, none, some, List, [], ◌∷◌, ◌++◌, Result, ok, err}
use gate_link.Time.{Ticks}
use gate_link.DeviceConfig.{AppConfig}
use gate_link.Broker.{
  Channel, queue_depth, outgoing_depth, OutgoingMessage, IncomingMessage, Subscription, publish,
}
use gate_link.Broker.Connection.{
  Client, Hub, Session, SessionError, Arrival, outgoing_ready, sub_ready, serve,
}
use gate_link.Broker.Attempts.{Network, attempt, subscribe}

-- The task between two attempts, with the statics, or in the loop of `run_once`.
pub data Link (QI QO QS C : Type 0) : Type 0 where
  offline : Hub QI QO QS → Link QI QO QS C
  online : Session QI QO QS C → Link QI QO QS C

-- `waiting` are the subscriptions that wait for room in their queue, each in a task of its own.
pub record Life (QI QO QS C : Type 0) : Type 0 where
  pub link : Link QI QO QS C
  pub waiting : List Subscription

pub data LifeEvent (A N K C : Type 0) (client : Client C) : Type 0 where
  attempted : Network A N K C client → LifeEvent A N K C client
  arrived : Arrival → LifeEvent A N K C client
  publishing : OutgoingMessage → LifeEvent A N K C client
  subscribing : Subscription → LifeEvent A N K C client
  retried received noticed : LifeEvent A N K C client

module _ {QI QO QS C : Type 0} where
  unfoldable pub hub_of : Link QI QO QS C → Hub QI QO QS
  hub_of (offline h) = h
  hub_of (online s) = s.hub

  unfoldable pub with_hub : Hub QI QO QS → Link QI QO QS C → Link QI QO QS C
  with_hub h (offline _) = offline h
  with_hub h (online s) = online (record s { hub = h })

  unfoldable pub on_hub : (Hub QI QO QS → Hub QI QO QS) → Life QI QO QS C → Life QI QO QS C
  unfolding hub_of with_hub
  on_hub f l = record l { link = with_hub (f (hub_of l.link)) l.link }

  unfoldable pub tried : Hub QI QO QS × Option (Session QI QO QS C) → Link QI QO QS C
  tried (h, some s) = online s
  tried (h, none) = offline h

-- A `publish` that goes on for ever would leave the queue as it is.
unfoldable pub publish_to_hub :
    {QI QO QS : Type 0}
    → Channel outgoing_depth QO OutgoingMessage
    → OutgoingMessage
    → Hub QI QO QS
    → Hub QI QO QS
publish_to_hub channel m h = elim (publish channel m h.outgoing) [
  | none ↦ h
  | some q ↦ record h { outgoing = q }
]

unfoldable pub receive :
    {QI QO QS : Type 0} → Channel queue_depth QI IncomingMessage → Hub QI QO QS → Hub QI QO QS
receive channel h = record h { incoming = (channel.try_receive h.incoming).0 }

unfoldable pub wait_connected : {QI QO QS : Type 0} → Hub QI QO QS → Hub QI QO QS
wait_connected h = record h { connected = false }

module _ {QI QO QS C : Type 0} (incoming_channel : Channel queue_depth QI IncomingMessage)
    (outgoing_channel : Channel outgoing_depth QO OutgoingMessage)
    (sub_channel : Channel queue_depth QS Subscription) (client : Client C) where
  -- The statics behind a round that fails: what it has taken from a queue is gone.
  unfoldable pub after_failure : Arrival → Session QI QO QS C → Hub QI QO QS
  after_failure outgoing_ready s = record s.hub {
    outgoing = (outgoing_channel.try_receive s.hub.outgoing).0;
  }
  after_failure sub_ready s = record s.hub {
    sub_queue = (sub_channel.try_receive s.hub.sub_queue).0;
  }
  after_failure _ s = s.hub

  unfoldable pub served :
      Arrival → Session QI QO QS C → Result SessionError (Session QI QO QS C) → Link QI QO QS C
  unfolding after_failure
  served a s (ok s') = online s'
  served a s (err _) = offline (after_failure a s)

  unfoldable pub serve_link : Arrival → Link QI QO QS C → Link QI QO QS C
  unfolding served
  serve_link a (offline h) = offline h
  serve_link a (online s) =
      served a s (serve incoming_channel outgoing_channel sub_channel client a s)

  waiting_on : List Subscription → Option Subscription → List Subscription
  waiting_on waiting none = waiting
  waiting_on waiting (some t) = waiting ++ t ∷ []

  unfoldable pub subscribe_life : Subscription → Life QI QO QS C → Life QI QO QS C
  unfolding hub_of with_hub waiting_on
  subscribe_life t l =
      let (h, rejected) = subscribe sub_channel t (hub_of l.link) in
      record { link = with_hub h l.link; waiting = waiting_on l.waiting rejected }

  retry_one :
      Subscription
      → List Subscription
      → QS × Option Subscription
      → Life QI QO QS C
      → Life QI QO QS C
  unfolding hub_of with_hub
  retry_one t ts (q, some _) l = l
  retry_one t ts (q, none) l = record {
    link = with_hub (record (hub_of l.link) { sub_queue = q }) l.link;
    waiting = ts;
  }

  -- The future of `SUB_QUEUE.send` is polled again, for the first one that waits.
  unfoldable pub retry : List Subscription → Life QI QO QS C → Life QI QO QS C
  unfolding retry_one
  retry [] l = l
  retry (t ∷ ts) l = retry_one t ts (sub_channel.try_send t (hub_of l.link).sub_queue) l

  module _ {A N K : Type 0} ⦃ticks : Ticks⦄ (cfg : AppConfig) where
    unfoldable pub attempt_link : Network A N K C client → Link QI QO QS C → Link QI QO QS C
    unfolding tried
    attempt_link net (online s) = online s
    attempt_link net (offline h) =
        tried (attempt incoming_channel outgoing_channel sub_channel client cfg net h)

    unfoldable pub live : LifeEvent A N K C client → Life QI QO QS C → Life QI QO QS C
    unfolding attempt_link serve_link subscribe_life retry on_hub publish_to_hub receive
        wait_connected
    live (attempted net) l = record l { link = attempt_link net l.link }
    live (arrived a) l = record l { link = serve_link a l.link }
    live (publishing m) l = on_hub (publish_to_hub outgoing_channel m) l
    live (subscribing t) l = subscribe_life t l
    live retried l = retry l.waiting l
    live received l = on_hub (receive incoming_channel) l
    live noticed l = on_hub wait_connected l

    unfoldable pub live_all : List (LifeEvent A N K C client) → Life QI QO QS C → Life QI QO QS C
    unfolding live
    live_all [] l = l
    live_all (e ∷ es) l = live_all es (live e l)
