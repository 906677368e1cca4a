-- ===== src/Broker.antt =====
-- src/infra/mqtt_client.rs: the queue of messages to publish.
-- `Channel` stands for the bounded channel of embassy_sync, by what `try_send` and `try_receive` are
-- documented to do: a send fails, and gives the message back, exactly when the channel is full.
pub mod Queue
pub mod Connection
pub mod Attempts
pub mod Life
pub mod Drain
pub mod BoundedList
pub mod Recorder
pub mod Networks
mod Examples
use gate_link.Prelude.{
  ℕ, zero, suc, ◌<◌, ◌≤◌, ◌≡◌, Bool, Option, none, some, List, [], ◌∷◌, ◌++◌, String, length,
}

abbrev pub queue_depth : ℕ
queue_depth = 8

abbrev pub outgoing_depth : ℕ
outgoing_depth = 16

-- The levels of the library behind `Client`.
pub data Qos : Type 0 where
  at_most_once at_least_once exactly_once : Qos

pub record OutgoingMessage : Type 0 where
  pub topic : String
  pub payload : List ℕ
  pub qos : Qos
  pub retain : Bool

pub record IncomingMessage : Type 0 where
  pub topic : String
  pub payload : List ℕ

pub record Subscription : Type 0 where
  pub topic : String
  pub qos : Qos

pub record Channel (depth : ℕ) (Q M : Type 0) : Type 0 where
  pub contents : Q → List M
  pub try_send : M → Q → Q × Option M
  pub try_receive : Q → Q × Option M
  pub bounded : (q : Q) → length (contents q) ≤ depth
  pub try_send-room :
      (m : M) (q : Q)
      → length (contents q) < depth
      → ((try_send m q).1 ≡ none) × (contents (try_send m q).0 ≡ contents q ++ m ∷ [])
  pub try_send-full :
      (m : M) (q : Q)
      → length (contents q) ≡ depth
      → ((try_send m q).1 ≡ some m) × (contents (try_send m q).0 ≡ contents q)
  pub try_receive-next :
      (m : M) (ms : List M) (q : Q)
      → contents q ≡ m ∷ ms
      → ((try_receive q).1 ≡ some m) × (contents (try_receive q).0 ≡ ms)
  pub try_receive-none :
      (q : Q) → contents q ≡ [] → ((try_receive q).1 ≡ none) × (contents (try_receive q).0 ≡ [])

module _ {depth : ℕ} {Q M : Type 0} (channel : Channel depth Q M) where
  open channel use {try_send, try_receive}

  -- The loop of `publish`, on fuel: `none` is a loop that goes on.
  unfoldable pub publish_loop : ℕ → M → Q → Option Q
  publish_loop zero m q = none
  publish_loop (suc fuel) m q =
      let (q', rejected) = try_send m q in
      elim rejected [ none ↦ some q' | some m' ↦ publish_loop fuel m' (try_receive q').0 ]

  unfoldable pub publish : M → Q → Option Q
  unfolding publish_loop
  publish m q = publish_loop 2 m q

  unfoldable pub publish_all : List M → Q → Option Q
  publish_all [] q = some q
  publish_all (m ∷ ms) q = elim (publish m q) [ none ↦ none | some q' ↦ publish_all ms q' ]

  -- `while channel.try_receive().is_ok() {}`, on fuel.
  unfoldable pub drain : ℕ → Q → Option Q
  drain zero q = none
  drain (suc fuel) q =
      let (q', received) = try_receive q in
      elim received [ none ↦ some q' | some _ ↦ drain fuel q' ]
