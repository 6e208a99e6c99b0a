-- ===== src/Runtime.antt =====
-- `RuntimeBase` of lib/common.py, with the ends that lib/plugin_base.py and lib/core_base.py give it.
-- The client's publishes are those that paho takes (`post`).
pub mod Lifecycle
pub mod Tests
use mpfc.Prelude.{
  ℕ, zero, suc, ◌+◌, ◌-◌, ◌*◌, ◌/◌, ◌%◌, ◌≤◌, ◌<◌, min, max, String, ◌≡◌, refl, sym, ap, ◌∙◌, ◌≢◌,
  ◌↔◌, ◌⊎◌, inl, inr, Bool, true, false, not, ◌&&◌, ◌||◌, Option, none, some, List, [], ◌∷◌, ◌++◌,
  map, arith, eq_iff, Equality, nat_equality, string_equality, pair_equality, ◌==◌, beq_refl,
  beq-sym, beq→eq, ne→beq, ltb, leb, if◌then◌else◌, is_some, ltb→lt, lt→ltb, ge→ltb, ltb→ge,
  Bool-cases, Option-cases, length, length-append, any, all, keep, All, All-append,
}
use mpfc.Dict.{Dict, lookup, contains, insert, remove, keys}
use mpfc.Exec.{
  ErrorClass, Error, error, is_data_error, is_exception, Result, ok, err, ◌>>=◌, ◌>>◌, raise,
  raise_if, or_raise, >>=-eq-ok, ok-injective,
}
use mpfc.Json.{Value, Fields, null, str, dict, end, field, get_item, build_envelope, as_payload}
use mpfc.Text.{◌<>◌}
use mpfc.Mqtt.{MqttBusClient, publish, receive, close}
use mpfc.Router.{BusRouter, Message, Poll, pump_once}

-- Which class stands above the base.
pub data Role : Type 0 where
  plugin core : Role

-- A queued response of a plugin.
pub record Response : Type 0 where
  pub request_id : String
  pub action : String
  pub succeeded : Bool
  pub payload : Value

pub record Runtime : Type 0 where
  pub role : Role
  pub client_id : String
  pub client : MqttBusClient
  pub stopped : Bool
  pub event_topics : Dict String String
  pub response_queue : List Response

abbrev pub control_shutdown_topic : String
control_shutdown_topic = "CONTROL/SHUTDOWN"

unfoldable pub diag_topic : String → String → String
diag_topic client_id event = "DIAG/" <> client_id <> "/" <> event

-- `self.client.publish`, for a publish that paho takes.
unfoldable pub post : String → Value → MqttBusClient → MqttBusClient
post topic payload c = (publish 0 topic payload c).1

abbrev pub event_payload : String → Value
event_payload event = dict (field "event" (str event) end)

unfoldable pub post_event : String → ℕ → Runtime → Runtime
unfolding diag_topic post
post_event event now r =
    let topic = diag_topic r.client_id event in
    record r {
      client = post topic (build_envelope r.client_id topic now (event_payload event)) r.client;
    }

unfoldable pub send_online : ℕ → Runtime → Runtime
unfolding post_event
send_online now r = post_event "ONLINE" now r

-- `stop`: the second time nothing happens.
unfoldable pub stop : ℕ → Runtime → Runtime
unfolding post_event
stop now r =
    let r' = post_event "STOPPED" now r in
    if r.stopped then r else record r' { stopped = true; client = close r'.client }

-- `_on_control_shutdown`, which does not return: a core tells the others before it stops.
unfoldable pub on_control_shutdown : ℕ → Runtime → Runtime
unfolding post
on_control_shutdown now r = elim r.role [
  | plugin ↦ stop now r
  | core ↦ stop now (record r {
    client =
        post control_shutdown_topic
          (build_envelope r.client_id control_shutdown_topic now (dict end)) r.client;
  })
]

-- `recv_message` on what the client's queue gives.
unfoldable pub handle_received :
    ℕ → Result (Option Message) → Runtime → Result (Option Message) × Runtime
unfolding diag_topic post
handle_received now (err e) r = (err e, r)
handle_received now (ok none) r = (ok none, r)
handle_received now (ok (some (topic, message))) r =
    let pong = diag_topic r.client_id "PONG" in
    if topic == diag_topic r.client_id "PING"
    then (elim (get_item "time" message) [
      | err e ↦ (err e, r)
      | ok time ↦ (
        ok none,
        record r {
          client =
              post pong (build_envelope r.client_id pong now (dict (field "ping_time" time end)))
                r.client;
        },
      )
    ])
    else if topic == control_shutdown_topic
    then (raise ErrorClass.system_exit "shutdown", on_control_shutdown now r)
    else (ok (some (topic, message)), r)

unfoldable pub recv_message : ℕ → Runtime → Result (Option Message) × Runtime
unfolding handle_received
recv_message now r =
    let (received, client) = receive r.client in
    handle_received now received (record r { client = client })

-- `enqueue_response`
unfoldable pub enqueue_response : Response → Runtime → Runtime
enqueue_response response r = record r { response_queue = r.response_queue ++ response ∷ [] }

unfoldable pub response_payload : Response → Value
response_payload response = dict (
    field "request_id" (str response.request_id) (
      field "action" (str response.action)
        (field "ok" (Value.bool response.succeeded) (field "data" response.payload end))))

post_all : String → String → ℕ → List Response → MqttBusClient → MqttBusClient
unfolding post response_payload
post_all client_id topic now [] c = c
post_all client_id topic now (response ∷ rest) c =
    post_all client_id topic now rest
      (post topic (build_envelope client_id topic now (response_payload response)) c)

-- `flush_queue`
unfoldable pub flush_queue : String → ℕ → Runtime → Runtime
unfolding post_all
flush_queue topic now r = record r {
  client = post_all r.client_id topic now r.response_queue r.client;
  response_queue = [];
}

-- `_publish_event`
unfoldable pub publish_event : String → Value → ℕ → Runtime → Result Runtime
unfolding post
publish_event key value now r = do
  topic ← or_raise (lookup key r.event_topics) ErrorClass.runtime_error "unknown event key"
  ok (record r {
    client = post topic (build_envelope r.client_id topic now (as_payload key value)) r.client;
  })

-- `publish_error`
unfoldable pub publish_error : String → ℕ → Runtime → Runtime
unfolding diag_topic post
publish_error trace now r =
    let topic = diag_topic r.client_id "ERROR" in
    record r {
      client =
          post topic
            (build_envelope r.client_id topic now
              (dict (field "event" (str "ERROR") (field "traceback" (str trace) end))))
            r.client;
    }

-- The turns of `wait_until`: the condition is read before each test of the deadline, and `on_tick`
-- runs before each pump. `none` where it still waits behind the last turn.
unfoldable pub wait_until :
    (BusRouter → Bool)
    → Option ℕ
    → Error
    → (BusRouter → BusRouter)
    → List Poll
    → BusRouter
    → Option (Result (Unit {0}) × BusRouter)
wait_until condition deadline timeout_error on_tick [] r =
    if condition r then some (ok tt, r) else none
wait_until condition deadline timeout_error on_tick (p ∷ polls) r =
    let (result, r') = pump_once p.clock p.received (on_tick r) in
    let overdue : Bool = elim deadline [ none ↦ false | some d ↦ ltb d p.clock ] in
    elim (condition r) [
      | true ↦ some (ok tt, r)
      | false ↦ elim overdue [
        | true ↦ some (err timeout_error, r)
        | false ↦ elim result [
          | err e ↦ some (err e, r')
          | ok _ ↦ wait_until condition deadline timeout_error on_tick polls r'
        ]
      ]
    ]

-- `pump_for`
unfoldable pub pump_for : ℕ → List Poll → BusRouter → Option (Result (Unit {0}) × BusRouter)
pump_for deadline [] r = none
pump_for deadline (p ∷ polls) r =
    let (result, r') = pump_once p.clock p.received r in
    elim (ltb p.clock deadline) [
      | false ↦ some (ok tt, r)
      | true ↦ elim result [ err e ↦ some (err e, r') | ok _ ↦ pump_for deadline polls r' ]
    ]
