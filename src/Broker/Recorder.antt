-- ===== src/Broker/Recorder.antt =====
-- A client that records what it sends: an instance of `Client` for the examples.
use gate_link.Prelude.{refl, true, List, [], ◌∷◌, ◌++◌}
use gate_link.Broker.{OutgoingMessage, Subscription}
use gate_link.Broker.Connection.{Client}

abbrev pub Sent : Type 0
Sent = List Subscription × List OutgoingMessage

abbrev pub recorder : Client Sent
recorder = record {
  subscribe_to = λ s c. ((c.0 ++ s ∷ [], c.1), true);
  publish_to = λ m c. ((c.0, c.1 ++ m ∷ []), true);
  subscribed = λ c. c.0;
  published = λ c. c.1;
  subscribed-subscribe_to = λ s c h. refl;
  published-publish_to = λ m c h. refl;
  published-subscribe_to = λ s c. refl;
  subscribed-publish_to = λ m c. refl;
}

abbrev pub unused : Sent
unused = ([], [])
