-- ===== src/Broker/Connection/Examples.antt =====
-- A client that records what it sends, and the theorems about a connection with it.
use gate_link.Prelude.{◌≡◌, refl, true, none, List, [], ◌∷◌, ok, arith}
use gate_link.Broker.{OutgoingMessage, IncomingMessage, Subscription, at_least_once}
use gate_link.Broker.BoundedList.{Bounded, bounded_list}
use gate_link.Broker.Recorder.{Sent, recorder, unused}
use gate_link.Broker.Connection.{
  Hub, Session, Arrival, outgoing_ready, polled, check_due, resubscribe, serve_all,
}
use gate_link.Broker.Connection.Order.{in_order, serve_all-in_order}

abbrev commands : Subscription
commands = record { topic = "mqtt_gate/cover/set"; qos = at_least_once }

abbrev state : OutgoingMessage
state = record {
  topic = "mqtt_gate/cover/state";
  payload = 111 ∷ 112 ∷ [];
  qos = at_least_once;
  retain = true;
}

abbrev offline :
    Hub (Bounded 8 IncomingMessage) (Bounded 16 OutgoingMessage) (Bounded 8 Subscription)
offline = record {
  incoming = ([], omega arith);
  outgoing = (state ∷ state ∷ [], omega arith);
  connected = true;
  subscriptions = commands ∷ [];
  sub_queue = (commands ∷ [], omega arith);
}

taken : (resubscribe recorder (commands ∷ []) unused).1 ≡ true
unfolding resubscribe
taken = refl

abbrev online :
    Session (Bounded 8 IncomingMessage) (Bounded 16 OutgoingMessage) (Bounded 8 Subscription) Sent
online = record { hub = offline; client = unused; delivering = none }

abbrev later :
    Session (Bounded 8 IncomingMessage) (Bounded 16 OutgoingMessage) (Bounded 8 Subscription) Sent
later = record {
  hub = record offline { outgoing = (bounded_list.try_receive offline.outgoing).0 };
  client = ([], state ∷ []);
  delivering = none;
}

abbrev arrivals : List Arrival
arrivals = polled none ∷ outgoing_ready ∷ check_due ∷ []

all_served : serve_all bounded_list bounded_list bounded_list recorder arrivals online ≡ ok later
unfolding serve_all bounded_list
all_served = refl

serve_all-in_order_example :
    in_order bounded_list bounded_list bounded_list recorder later
    ≡ in_order bounded_list bounded_list bounded_list recorder online
serve_all-in_order_example =
    serve_all-in_order bounded_list bounded_list bounded_list recorder arrivals online later
      all_served
