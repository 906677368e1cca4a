-- ===== src/Messages/Delivery.antt =====
-- src/app and src/physical/gate.rs: what a publication leaves in the queue.
use gate_link.Prelude.{
  ℕ, ◌-◌, ◌≤◌, ◌≡◌, refl, ap, ◌∙◌, Bool, Option, some, List, ◌++◌, length, length-append, String,
  bytes, arith,
}
use mathlib.Core.Option
use mathlib.Core.List.{append_assoc}
use gate_link.Controls.{Controls, set_barrier_bypass}
use gate_link.Mqtt.{set_bypass, apply, state_messages}
use gate_link.Mqtt.Parsing.{topic_of, payload_of, parse-message}
use gate_link.Discovery.{Entity, configs}
use gate_link.Broker.{Channel, OutgoingMessage, outgoing_depth}
use gate_link.Broker.Queue.{keep_last, drop, drop-append, keep_last-append, publish_all-keep_last}
use gate_link.Messages.{
  Desk, state_publications, config_publications, publish_state, execute, handle_parsed, handle,
  republish,
}

keep_last-suffix {ℓ} :
    {A : Type ℓ} (n : ℕ) (xs ms : List A)
    → length ms ≤ n
    → keep_last n (xs ++ ms) ≡ drop (length (xs ++ ms) - n) xs ++ ms
keep_last-suffix n xs ms h =
    drop-append (length (xs ++ ms) - n) xs ms (omega (arith, length-append xs ms))

module _ {Q : Type 0} (channel : Channel outgoing_depth Q OutgoingMessage) where
  open channel use {contents}

  -- The desk with the controls `c`, and in its queue the messages `ms` behind others.
  pub record Delivered (c : Controls) (ms : List OutgoingMessage) (o : Option (Desk Q))
      : Type 0 where
    pub desk : Desk Q
    pub older : List OutgoingMessage
    pub ends : o ≡ some desk
    pub controls_are : desk.controls ≡ c
    pub queued : contents desk.queue ≡ older ++ ms

  publish_state-Delivered :
      (d : Desk Q) → Delivered d.controls (state_publications d.controls) (publish_state channel d)
  unfolding publish_state state_messages
  publish_state-Delivered d =
      let ms = state_publications d.controls in
      let (q, e, c) = publish_all-keep_last channel ms d.queue (omega arith) in
      record {
        desk = record d { queue = q };
        older = drop (length (contents d.queue ++ ms) - outgoing_depth) (contents d.queue);
        ends = ap (Option.map (λ x. record d { queue = x })) e;
        controls_are = refl;
        queued = c ∙ keep_last-suffix outgoing_depth (contents d.queue) ms (omega arith);
      }

  -- A reconnect: from any queue, the discovery task publishes all configs and then the state, without
  -- blocking, and in the queue they stand behind what else fits, in order and complete: the depth of
  -- the queue is enough for a full republication, whatever piled up before.
  pub republish-Delivered :
      (json : Entity → List ℕ) (sw : String) (d : Desk Q)
      → Delivered d.controls
          (config_publications json sw ++ state_publications d.controls)
          (republish channel json sw d)
  unfolding republish publish_state state_messages configs
  republish-Delivered json sw d =
      let ms = config_publications json sw in
      let ns = state_publications d.controls in
      let (q, e, c) = publish_all-keep_last channel ms d.queue (omega arith) in
      let (q', e', c') = publish_all-keep_last channel ns q (omega arith) in
      let old = contents d.queue in
      record {
        desk = record d { queue = q' };
        older = drop (length (old ++ (ms ++ ns)) - outgoing_depth) old;
        ends = rw (e, republish) (ap (Option.map (λ x. record d { queue = x })) e');
        controls_are = refl;
        queued =
            c'
            ∙ ap (λ xs. keep_last outgoing_depth (xs ++ ns)) c
            ∙ keep_last-append outgoing_depth (old ++ ms) ns
            ∙ ap (keep_last outgoing_depth) (append_assoc old ms ns)
            ∙ keep_last-suffix outgoing_depth old (ms ++ ns) (omega arith);
      }

  -- A bypass message, on or off, switches the bypass and publishes the state behind it, without
  -- blocking, so that the switch shows at once; the other two state messages go with it.
  pub bypass-Delivered :
      (active : Bool) (d : Desk Q)
      → Delivered
          (set_barrier_bypass active d.controls)
          (state_publications (set_barrier_bypass active d.controls))
          (handle channel
            (record {
              topic = topic_of (set_bypass active);
              payload = bytes (payload_of (set_bypass active));
            })
            d)
  unfolding handle handle_parsed execute apply
  bypass-Delivered active d =
      let c = set_barrier_bypass active d.controls in
      rw (parse-message (set_bypass active), handle_parsed)
        (publish_state-Delivered (record d { controls = c }))
