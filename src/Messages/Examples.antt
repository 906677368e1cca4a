-- ===== src/Messages/Examples.antt =====
-- A desk with an empty queue, and the theorems about it.
use gate_link.Prelude.{ℕ, true, List, [], ◌∷◌, ◌++◌, bytes, arith}
use gate_link.Controls.{set_barrier_bypass}
use gate_link.Controls
use gate_link.Mqtt.{set_bypass}
use gate_link.Mqtt.Parsing.{topic_of, payload_of}
use gate_link.Discovery.{Entity}
use gate_link.Broker.{OutgoingMessage}
use gate_link.Broker.BoundedList.{Bounded, bounded_list}
use gate_link.Messages.{Desk, config_publications, state_publications, republish, handle}
use gate_link.Messages.Delivery.{Delivered, republish-Delivered, bypass-Delivered}

abbrev desk : Desk (Bounded 16 OutgoingMessage)
desk = record { controls = Controls.new; queue = ([], omega arith) }

abbrev braces : Entity → List ℕ
braces _ = 123 ∷ 125 ∷ []

republish-Delivered_example :
    Delivered bounded_list Controls.new
      (config_publications braces "1.0.0" ++ state_publications Controls.new)
      (republish bounded_list braces "1.0.0" desk)
republish-Delivered_example = republish-Delivered bounded_list braces "1.0.0" desk

bypass-Delivered_example :
    Delivered bounded_list
      (set_barrier_bypass true Controls.new)
      (state_publications (set_barrier_bypass true Controls.new))
      (handle bounded_list
        (record {
          topic = topic_of (set_bypass true);
          payload = bytes (payload_of (set_bypass true));
        })
        desk)
bypass-Delivered_example = bypass-Delivered bounded_list true desk
