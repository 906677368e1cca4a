-- ===== src/Broker/Networks.antt =====
-- Networks that work and that do not, and statics, for the examples.
use gate_link.Prelude.{Done, ℕ, ◌≡◌, Bool, true, none, some, List, [], Result, ok, arith}
use gate_link.Time.{Ticks, micros}
use gate_link.DeviceConfig.{AppConfig}
use gate_link.Broker.{IncomingMessage, OutgoingMessage, Subscription}
use gate_link.Broker.BoundedList.{Bounded}
use gate_link.Broker.Recorder.{Sent, recorder, unused}
use gate_link.Broker.Connection.{Hub}
use gate_link.Broker.Attempts.{Network}

instance abbrev pub clock : Ticks
clock = micros

abbrev pub cottage : AppConfig
cottage = record {
  wifi_ssid = "cottage";
  wifi_password = "secret";
  mqtt_host = "broker.lan";
  mqtt_port = 1883;
  mqtt_username = some "gate";
  mqtt_password = none;
}

pub nothing_subscribed :
    (c : Sent) → ◌≡◌ {A = Result Bool Sent} (ok unused) (ok c) → recorder.subscribed c ≡ []
nothing_subscribed c h = ground arith

-- A network that resolves names to the addresses that are given.
abbrev pub network : List ℕ → Network ℕ Bool Done Sent recorder
network addresses = record {
  parse_address = λ host. none;
  dns_query = λ host. ok addresses;
  tcp_connect = λ a port. ok tt;
  mqtt_connect = λ k o. ok unused;
  subscribed-mqtt_connect = λ k o c h. nothing_subscribed c h;
}

abbrev pub fresh :
    Hub (Bounded 8 IncomingMessage) (Bounded 16 OutgoingMessage) (Bounded 8 Subscription)
fresh = record {
  incoming = ([], omega arith);
  outgoing = ([], omega arith);
  connected = true;
  subscriptions = [];
  sub_queue = ([], omega arith);
}
