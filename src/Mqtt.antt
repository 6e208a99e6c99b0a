-- ===== src/Mqtt.antt =====
-- lib/mqtt_bus_client.py: the MQTT client of one process. What paho does is an argument: the status
-- of a connection, whether it takes a subscription, and the status of a publish. A received payload
-- is given as what decoding and `json.loads` make of it, `none` where they fail.
pub mod Prefix
pub mod Delivery
pub mod Subscriptions
pub mod Tests
use mpfc.Prelude.{
  ℕ, zero, suc, ◌+◌, ◌-◌, ◌*◌, ◌/◌, ◌%◌, ◌≤◌, ◌<◌, min, max, String, ◌≡◌, refl, sym, ap, ◌∙◌, ◌≢◌,
  ◌↔◌, ◌⊎◌, inl, inr, Bool, true, false, not, ◌&&◌, ◌||◌, Option, none, some, List, [], ◌∷◌, ◌++◌,
  map, arith, eq_iff, Equality, nat_equality, string_equality, pair_equality, ◌==◌, beq_refl,
  beq-sym, beq→eq, ne→beq, ltb, leb, if◌then◌else◌, is_some, ltb→lt, lt→ltb, ge→ltb, ltb→ge,
  Bool-cases, Option-cases, length, length-append, any, all, keep, All, All-append,
}
use mpfc.Exec.{
  ErrorClass, Error, error, is_data_error, is_exception, Result, ok, err, ◌>>=◌, ◌>>◌, raise,
  raise_if, or_raise, >>=-eq-ok, ok-injective,
}
use mpfc.Json.{Value}
use mpfc.Text.{◌<>◌}
use mpfc.Mqtt.Prefix.{strip_prefix}

-- `wire` holds what paho was given to publish, `held` the topics that paho was subscribed to.
pub record MqttBusClient : Type 0 where
  pub topic_prefix : String
  pub inbox : List (String × Value)
  pub connected : Bool
  pub connect_rc : Option ℕ
  pub subscriptions : List String
  pub background_error : Option Error
  pub closed : Bool
  pub wire : List (String × Value)
  pub held : List String

-- `_topic`
unfoldable pub full_topic : MqttBusClient → String → String
full_topic c topic = c.topic_prefix <> "/" <> topic

-- `topics.add(topic)`
unfoldable pub add_topic : String → List String → List String
add_topic topic s = if any (λ t. t == topic) s then s else s ++ topic ∷ []

-- `_subscribe_topic`
unfoldable pub subscribe_topic :
    (String → Bool) → String → MqttBusClient → Result (Unit {0}) × MqttBusClient
unfolding full_topic
subscribe_topic takes topic c =
    if takes (full_topic c topic)
    then (ok tt, record c { held = c.held ++ full_topic c topic ∷ [] })
    else (raise ErrorClass.runtime_error "mqtt subscribe failed", c)

-- The loop of `_on_connect`: the first refusal is kept as the background error and ends it.
unfoldable pub resubscribe : (String → Bool) → List String → MqttBusClient → MqttBusClient
resubscribe takes [] c = c
resubscribe takes (topic ∷ rest) c =
    let next = resubscribe takes rest (subscribe_topic takes topic c).1 in
    elim (subscribe_topic takes topic c).0 [
      | ok _ ↦ next
      | err e ↦ record c { background_error = some e }
    ]

-- `_on_connect`
unfoldable pub on_connect : (String → Bool) → ℕ → MqttBusClient → MqttBusClient
on_connect takes rc c =
    let refused = record c { connect_rc = some rc; connected = false } in
    let accepted = record c { connect_rc = some rc; connected = true } in
    if rc == 0 then resubscribe takes c.subscriptions accepted else refused

-- `_on_disconnect`
unfoldable pub on_disconnect : MqttBusClient → MqttBusClient
on_disconnect c = record c { connected = false }

-- `_on_message`
unfoldable pub on_message : String → Option Value → MqttBusClient → MqttBusClient
on_message topic none c = c
on_message topic (some parsed) c = elim (strip_prefix (c.topic_prefix <> "/") topic) [
  | none ↦ c
  | some local ↦ record c { inbox = c.inbox ++ (local, parsed) ∷ [] }
]

-- `_raise_background_error`
unfoldable pub raise_background_error : MqttBusClient → Result (Unit {0})
raise_background_error c = elim c.background_error [ none ↦ ok tt | some e ↦ err e ]

unfoldable pub subscribe :
    (String → Bool) → String → MqttBusClient → Result (Unit {0}) × MqttBusClient
unfolding raise_background_error add_topic
subscribe takes topic c =
    let c' = record c { subscriptions = add_topic topic c.subscriptions } in
    elim (raise_background_error c) [
      | err e ↦ (err e, c)
      | ok _ ↦ if c.connected then subscribe_topic takes topic c' else (ok tt, c')
    ]

-- The argument `status` is the `rc` that paho returns.
unfoldable pub publish : ℕ → String → Value → MqttBusClient → Result (Unit {0}) × MqttBusClient
unfolding raise_background_error full_topic
publish status topic payload c = if c.closed then (ok tt, c) else elim (raise_background_error c) [
  | err e ↦ (err e, c)
  | ok _ ↦
      if status == 0
      then (ok tt, record c { wire = c.wire ++ (full_topic c topic, payload) ∷ [] })
      else (raise ErrorClass.runtime_error "mqtt publish failed", c)
]

-- `none` where the queue is empty when the timeout ends (`queue.Empty`).
unfoldable pub receive : MqttBusClient → Result (Option (String × Value)) × MqttBusClient
unfolding raise_background_error
receive c = elim (raise_background_error c) [
  | err e ↦ (err e, c)
  | ok _ ↦ elim c.inbox [
    | [] ↦ (ok none, c)
    | item ∷ rest ↦ (ok (some item), record c { inbox = rest })
  ]
]

-- The loop threads stop; what was received stays.
unfoldable pub close : MqttBusClient → MqttBusClient
close c = record c { closed = true }
