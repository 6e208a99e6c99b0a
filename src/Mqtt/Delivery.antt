-- ===== src/Mqtt/Delivery.antt =====
-- From one client's `publish` to another client's inbox.
use mpfc.Prelude.{
  String, ◌≡◌, refl, ◌↔◌, ◌⊎◌, inl, inr, false, Option, none, some, [], ◌∷◌, ◌++◌, arith,
  nat_equality, string_equality, pair_equality, Option-cases,
}
use mpfc.Exec.{ok}
use mpfc.Json.{Value}
use mpfc.Text.{◌<>◌}
use mpfc.Mqtt.Prefix.{strip_prefix, strip_prefix-append, append-strip_prefix}
use mpfc.Mqtt.{MqttBusClient, full_topic, on_message, publish}

pub strip_prefix_iff : (p s t : String) → (strip_prefix p s ≡ some t) ↔ (s ≡ p <> t)
strip_prefix_iff p s t = (append-strip_prefix p s t, λ e. rw e (strip_prefix-append p t))

-- A message that a client publishes reaches a client with the same prefix under the topic that it
-- was published on, with its payload, behind all that came before.
pub on_message-publish :
    (topic : String) (payload : Value) (sender receiver : MqttBusClient)
    → sender.closed ≡ false
    → sender.background_error ≡ none
    → receiver.topic_prefix ≡ sender.topic_prefix
    → ((publish 0 topic payload sender).0 ≡ ok tt)
      × ((publish 0 topic payload sender).1.wire
          ≡ sender.wire ++ (full_topic sender topic, payload) ∷ [])
      × ((on_message (full_topic sender topic) (some payload) receiver).inbox
          ≡ receiver.inbox ++ (topic, payload) ∷ [])
unfolding publish on_message
on_message-publish topic payload sender receiver opened clean same = (
  rw (opened, clean, publish),
  rw (opened, clean, publish),
  ground (arith, same, strip_prefix-append (sender.topic_prefix <> "/") topic),
)

-- What is in the inbox behind a message is what was there before, or the message carried a topic
-- that is the client's own prefix, a slash and the topic it is filed under.
pub on_message_only_own :
    (full : String) (parsed : Option Value) (c : MqttBusClient)
    → (on_message full parsed c ≡ c)
      ⊎ ((topic : String) × (v : Value) × (parsed ≡ some v)
          × (full ≡ c.topic_prefix <> "/" <> topic)
          × (on_message full parsed c ≡ record c { inbox = c.inbox ++ (topic, v) ∷ [] }))
unfolding on_message
on_message_only_own full none c = inl refl
on_message_only_own full (some v) c =
    elim (Option-cases (strip_prefix (c.topic_prefix <> "/") full)) [
      | inl foreign ↦ inl (rw (foreign, on_message))
      | inr (topic, own) ↦ inr (
        topic,
        v,
        refl,
        append-strip_prefix (c.topic_prefix <> "/") full topic own,
        rw (own, on_message),
      )
    ]
