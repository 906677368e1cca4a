-- ===== src/Broker/Life/Examples.antt =====
-- A history of the connection, and the theorem about subscriptions on it.
use gate_link.Prelude.{ℕ, ◌≡◌, refl, Bool, true, none, List, [], ◌∷◌, ◌++◌, Done, bytes}
use mathlib.Core.List.{Mem, Sublist}
use gate_link.Broker.Attempts.{attempt, connect, subscribe}
use gate_link.Broker.{
  drain, publish, IncomingMessage, OutgoingMessage, Subscription, at_least_once, at_most_once,
}
use gate_link.Broker.BoundedList.{Bounded, bounded_list}
use gate_link.Broker.Recorder.{Sent, recorder, unused}
use gate_link.Broker.Networks.{cottage, network, fresh, clock}
use gate_link.Broker.Connection.{
  Session, begin_session, resubscribe, serve, register, poll_failed, sub_ready, outgoing_ready,
}
use gate_link.Broker.Life.{
  LifeEvent, offline, online, Life, attempted, arrived, noticed, publishing, subscribing, live_all,
}
use gate_link.Broker.Life.Kept.{subscription_in_force}
use gate_link.Broker.Life.Sending.{messages, sent_in_order}

abbrev to_topic : Subscription
to_topic = record { topic = "gate/set"; qos = at_least_once }

abbrev state : OutgoingMessage
state = record { topic = "gate/state"; payload = bytes "open"; qos = at_most_once; retain = true }

abbrev Event : Type 0
Event = LifeEvent ℕ Bool Done Sent recorder

-- A session is lost after the subscription, and the next attempt fails.
abbrev before : List Event
before = attempted (network (7 ∷ [])) ∷ publishing state ∷ arrived outgoing_ready ∷ []

abbrev after : List Event
after =
    arrived sub_ready
    ∷ arrived poll_failed
    ∷ attempted (network [])
    ∷ publishing state
    ∷ attempted (network (7 ∷ []))
    ∷ []

abbrev Statics : Type 0
Statics =
    Life (Bounded 8 IncomingMessage) (Bounded 16 OutgoingMessage) (Bounded 8 Subscription) Sent

abbrev begin : Statics
begin = record { link = offline fresh; waiting = [] }

abbrev lived : List Event → Statics
lived es = live_all bounded_list bounded_list bounded_list recorder cottage es begin

abbrev session_of :
    Statics
    → Session (Bounded 8 IncomingMessage) (Bounded 16 OutgoingMessage) (Bounded 8 Subscription) Sent
session_of l = elim l.link [
  | online s ↦ s
  | offline h ↦ record { hub = h; client = unused; delivering = none }
]

abbrev last : Statics
last = lived (before ++ subscribing to_topic ∷ after)

subscribed_again : (session_of last).client ≡ (to_topic ∷ [], [])
unfolding live_all bounded_list attempt connect begin_session drain resubscribe serve publish
    subscribe register
subscribed_again = refl

last_goes_on : last ≡ record { link = online (session_of last); waiting = [] }
unfolding live_all bounded_list attempt connect begin_session drain resubscribe serve publish
    subscribe register
last_goes_on = refl

subscription_in_force_example :
    Mem to_topic (((session_of last).client.0 ++ (session_of last).hub.sub_queue.0) ++ [])
unfolding bounded_list
subscription_in_force_example =
    subscription_in_force bounded_list bounded_list bounded_list recorder cottage fresh before after
      to_topic (session_of last) [] last_goes_on

-- A session that has sent one message, and goes on with two more.
abbrev busy : Statics
busy = lived before

abbrev traffic : List Event
traffic =
    publishing state
    ∷ arrived outgoing_ready
    ∷ noticed
    ∷ publishing (record state { payload = bytes "closed" })
    ∷ []

abbrev busier : Statics
busier =
    live_all bounded_list bounded_list bounded_list recorder cottage traffic
      (record { link = online (session_of busy); waiting = [] })

busier_goes_on : busier ≡ record { link = online (session_of busier); waiting = [] }
unfolding live_all bounded_list attempt connect begin_session drain resubscribe serve publish
    subscribe register
busier_goes_on = refl

sent_in_order_example :
    Sublist
      ((session_of busier).client.1 ++ (session_of busier).hub.outgoing.0)
      (((session_of busy).client.1 ++ (session_of busy).hub.outgoing.0) ++ messages traffic)
unfolding bounded_list
sent_in_order_example =
    sent_in_order bounded_list bounded_list bounded_list recorder cottage traffic (session_of busy)
      (session_of busier) [] [] (refl, (refl, (refl, (refl, tt)))) busier_goes_on
