-- ===== src/Broker/Attempts/Examples.antt =====
-- Networks that work and that do not, and the theorem about the attempts on them.
use gate_link.Prelude.{◌≡◌, refl, Bool, true, none, some, [], ◌∷◌, ◌++◌, map, utf8, ok, err}
use gate_link.Mqtt.{command_topics}
use gate_link.Broker.{IncomingMessage, OutgoingMessage, Subscription}
use gate_link.Broker.BoundedList.{Bounded, bounded_list}
use gate_link.Broker.Recorder.{Sent, recorder, unused}
use gate_link.Broker.Connection.{Hub, Session, resubscribe}
use gate_link.Broker.Attempts.{
  recv, connection_reset, could_not_resolve, connect, resolve, options, reconnect, begin_handler,
}
use gate_link.Broker.Networks.{cottage, network, fresh, clock}
use gate_link.Broker.Attempts.Commands.{to_topic, commands_subscribed}

end_of_stream : recv {N = Bool} (ok 0) ≡ err connection_reset
unfolding recv
end_of_stream = refl

no_address : connect (network []) cottage ≡ err could_not_resolve
unfolding connect resolve
no_address = refl

credentials_incomplete : (options cottage).credentials ≡ none
unfolding options
credentials_incomplete = refl

credentials_encoded :
    (options (record cottage { mqtt_password = some "é" })).credentials
    ≡ some ("gate", 195 ∷ 169 ∷ [])
unfolding options utf8
credentials_encoded = refl

connects : connect (network (7 ∷ [])) cottage ≡ ok unused
unfolding connect resolve
connects = refl

taken : (resubscribe recorder (map to_topic command_topics) unused).1 ≡ true
unfolding resubscribe
taken = refl

commands_subscribed_example :
    (h' : Hub (Bounded 8 IncomingMessage) (Bounded 16 OutgoingMessage) (Bounded 8 Subscription))
    × (s : Session
        (Bounded 8 IncomingMessage)
        (Bounded 16 OutgoingMessage)
        (Bounded 8 Subscription)
        Sent)
    × (begin_handler bounded_list fresh ≡ some h')
    × (reconnect bounded_list bounded_list bounded_list recorder cottage
          ((network [] ∷ network [] ∷ []) ++ network (7 ∷ []) ∷ [])
          h'
        ≡ some s)
    × (s.client.0 ≡ map to_topic command_topics)
    × (s.hub.outgoing.0 ≡ [])
    × (s.hub.connected ≡ true)
unfolding bounded_list
commands_subscribed_example =
    commands_subscribed bounded_list bounded_list bounded_list recorder cottage fresh
      (network [] ∷ network [] ∷ []) [] (network (7 ∷ [])) unused refl refl connects taken
