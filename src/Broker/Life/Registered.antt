-- ===== src/Broker/Life/Registered.antt =====
-- src/infra/mqtt_client.rs: the subscriptions that are registered, and the client of a session.
use gate_link.Prelude.{
  ◌≡◌, refl, ap, sym, ◌∙◌, inl, inr, Option, none, some, List, [], ◌∷◌, ◌++◌, Result, ok, err,
  arith,
}
use mathlib.Core.Path.{subst}
use mathlib.Core.Logic.Or
use mathlib.Core.List.{append_assoc, Mem, Mem-prop, mem-append, mem-append_left, mem-append_right}
use gate_link.Broker.{
  Channel, queue_depth, outgoing_depth, OutgoingMessage, IncomingMessage, Subscription,
}
use gate_link.Broker.Queue.{sent_or_kept}
use gate_link.Broker.Connection.{Client, Hub, Session, SessionError, Arrival, serve}
use gate_link.Broker.Connection.Sessions.{Fresh}
use gate_link.Broker.Connection.Lines.{line, Serves, serve-Serves}
use gate_link.Broker.Life.{
  Link, offline, online, Life, hub_of, with_hub, tried, served, serve_link, retry_one, retry,
}

module _ {ℓ} {A : Type ℓ} where
  pub grown : (c q w : List A) (t x : A) → Mem x ((c ++ q) ++ w) → Mem x ((c ++ (q ++ t ∷ [])) ++ w)
  grown c q w t x m =
      Or.elim Mem-prop (mem-append.0 m)
        (λ in_line.
          mem-append_left w
            (subst (Mem x) (append_assoc c q (t ∷ [])) (mem-append_left (t ∷ []) in_line)))
        (λ waits. mem-append_right (c ++ (q ++ t ∷ [])) waits)

  pub added : (c q w : List A) (t x : A) → Mem x (t ∷ []) → Mem x ((c ++ (q ++ t ∷ [])) ++ w)
  added c q w t x m = mem-append_left w (mem-append_right c (mem-append_right q m))

  moved : (c q w : List A) (t : A) → (c ++ q) ++ t ∷ w ≡ (c ++ (q ++ t ∷ [])) ++ w
  moved c q w t =
      sym (append_assoc (c ++ q) (t ∷ []) w) ∙ ap (λ xs. xs ++ w) (append_assoc c q (t ∷ []))

module _ {QI QO QS C : Type 0} (incoming_channel : Channel queue_depth QI IncomingMessage)
    (outgoing_channel : Channel outgoing_depth QO OutgoingMessage)
    (sub_channel : Channel queue_depth QS Subscription) (client : Client C) where
  open sub_channel use {contents, try_send}

  -- In a session, a registered subscription is made, queued, or waits for room in the queue.
  unfoldable pub InForce : Link QI QO QS C → List Subscription → Type 0
  InForce (offline h) waiting = Unit
  InForce (online s) waiting =
      (t : Subscription)
      → Mem t s.hub.subscriptions
      → Mem t (line incoming_channel outgoing_channel sub_channel client s ++ waiting)

  Fresh-InForce :
      (h : Hub QI QO QS) (s : Session QI QO QS C) (waiting : List Subscription)
      → Fresh incoming_channel outgoing_channel sub_channel client h [] s
      → InForce (online s) waiting
  unfolding InForce
  Fresh-InForce h s waiting f t m = mem-append_left waiting (
      mem-append_left (contents s.hub.sub_queue)
        (subst (Mem t) (f.still_registered ∙ sym f.all_subscribed) m))

  pub tried-InForce :
      (h : Hub QI QO QS) (r : Hub QI QO QS × Option (Session QI QO QS C))
      (waiting : List Subscription)
      → ((s : Session QI QO QS C)
          → r.1 ≡ some s
          → Fresh incoming_channel outgoing_channel sub_channel client h [] s)
      → InForce (tried r) waiting
  unfolding InForce tried Fresh-InForce
  tried-InForce h (h', none) waiting f = tt
  tried-InForce h (h', some s) waiting f = Fresh-InForce h s waiting (f s refl)

  served-InForce :
      (a : Arrival) (s : Session QI QO QS C) (r : Result SessionError (Session QI QO QS C))
      (waiting : List Subscription)
      → Serves incoming_channel outgoing_channel sub_channel client s r
      → InForce (online s) waiting
      → InForce (served incoming_channel outgoing_channel sub_channel client a s r) waiting
  unfolding InForce served
  served-InForce a s (err _) waiting k i = tt
  served-InForce a s (ok s') waiting (subs, same) i =
      λ t m. subst (λ xs. Mem t (xs ++ waiting)) (sym same) (i t (subst (Mem t) subs m))

  pub serve_link-InForce :
      (a : Arrival) (link : Link QI QO QS C) (waiting : List Subscription)
      → InForce link waiting
      → InForce (serve_link incoming_channel outgoing_channel sub_channel client a link) waiting
  unfolding InForce serve_link
  serve_link-InForce a (offline h) waiting i = tt
  serve_link-InForce a (online s) waiting i =
      served-InForce a s (serve incoming_channel outgoing_channel sub_channel client a s) waiting
        (serve-Serves incoming_channel outgoing_channel sub_channel client a s) i

  -- The queue grows by what no longer waits, or stays.
  pub with_hub-InForce :
      (h : Hub QI QO QS) (link : Link QI QO QS C) (waiting waiting' : List Subscription)
      → h.subscriptions ≡ (hub_of link).subscriptions
      → ((c : List Subscription)
          → (c ++ contents (hub_of link).sub_queue) ++ waiting
            ≡ (c ++ contents h.sub_queue) ++ waiting')
      → InForce link waiting
      → InForce (with_hub h link) waiting'
  unfolding InForce hub_of with_hub
  with_hub-InForce h (offline _) waiting waiting' subs same i = tt
  with_hub-InForce h (online s) waiting waiting' subs same i =
      λ t m. subst (Mem t) (same (client.subscribed s.client)) (i t (subst (Mem t) subs m))

  retry_one-InForce :
      (u : Subscription) (us : List Subscription) (r : QS × Option Subscription)
      (l : Life QI QO QS C)
      → l.waiting ≡ u ∷ us
      → (r.1 ≡ none → contents r.0 ≡ contents (hub_of l.link).sub_queue ++ u ∷ [])
      → InForce l.link l.waiting
      → let l' = retry_one incoming_channel outgoing_channel sub_channel client u us r l in
        InForce l'.link l'.waiting
  unfolding retry_one
  retry_one-InForce u us (q, some _) l e sent i = i
  retry_one-InForce u us (q, none) l e sent i =
      let before = contents (hub_of l.link).sub_queue in
      with_hub-InForce (record (hub_of l.link) { sub_queue = q }) l.link l.waiting us refl
        (λ c.
          ap (λ xs. (c ++ before) ++ xs) e
          ∙ moved c before us u
          ∙ ap (λ xs. (c ++ xs) ++ us) (sym (sent refl)))
        i

  accepted :
      (u : Subscription) (q : QS)
      → (try_send u q).1 ≡ none
      → contents (try_send u q).0 ≡ contents q ++ u ∷ []
  accepted u q h = elim (sent_or_kept sub_channel u q) [
    | inl (_, grows) ↦ grows
    | inr (back, _) ↦ absurd (ground (arith, back, h))
  ]

  pub retry-InForce :
      (waiting : List Subscription) (l : Life QI QO QS C)
      → l.waiting ≡ waiting
      → InForce l.link l.waiting
      → let l' = retry incoming_channel outgoing_channel sub_channel client waiting l in
        InForce l'.link l'.waiting
  unfolding retry
  retry-InForce [] l e i = i
  retry-InForce (u ∷ us) l e i =
      let q = (hub_of l.link).sub_queue in
      retry_one-InForce u us (try_send u q) l e (accepted u q) i
