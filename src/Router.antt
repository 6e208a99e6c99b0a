-- ===== src/Router.antt =====
-- `BusRouter` of lib/common.py: state, responses and SET commands from one queue of messages.
pub mod Pump
pub mod Wait
pub mod Requests
pub mod Tests
use mpfc.Prelude.{
  ℕ, zero, suc, ◌+◌, ◌-◌, ◌*◌, ◌/◌, ◌%◌, ◌≤◌, ◌<◌, min, max, String, ◌≡◌, refl, sym, ap, ◌∙◌, ◌≢◌,
  ◌↔◌, ◌⊎◌, inl, inr, Bool, true, false, not, ◌&&◌, ◌||◌, Option, none, some, List, [], ◌∷◌, ◌++◌,
  map, arith, eq_iff, Equality, nat_equality, string_equality, pair_equality, ◌==◌, beq_refl,
  beq-sym, beq→eq, ne→beq, ltb, leb, if◌then◌else◌, is_some, ltb→lt, lt→ltb, ge→ltb, ltb→ge,
  Bool-cases, Option-cases, length, length-append, any, all, keep, All, All-append,
}
use mpfc.Dict.{Dict, lookup, contains, insert, remove, keys}
use mpfc.Exec.{
  ErrorClass, Error, error, is_data_error, is_exception, Result, ok, err, ◌>>=◌, ◌>>◌, raise,
  raise_if, or_raise, >>=-eq-ok, ok-injective,
}
use mpfc.Prelude.Int.{ℤ}
use mpfc.Json.{
  Value, Fields, null, bool, int, float, str, list, dict, end, field, get_item, build_envelope,
  last_part,
}
use mpfc.Text.{◌<>◌, decimal}

-- A registered SET attribute: the object, its attribute and the conversion of the value. A handler's
-- lock only guards the assignment.
pub record Handler : Type 0 where
  pub target : String
  pub attr : String
  pub cast : Option (Value → Result Value)

-- `attrs` are the attributes of the objects that SET commands write.
pub record BusRouter : Type 0 where
  pub client_id : String
  pub poll_interval_s : ℕ
  pub state : Dict String Value
  pub responses : Dict String Value
  pub state_topics : Dict String String
  pub response_topics : List String
  pub set_attr_handlers : Dict String (Dict String Handler)
  pub attrs : Dict (String × String) Value
  pub request_counter : ℕ
  pub state_log_keys : List String
  pub state_log_interval_s : Option ℕ
  pub state_log_last : ℕ

abbrev pub Message : Type 0
Message = String × Value

abbrev pub among : String → List String → Bool
among t ts = any (λ u. u == t) ts

unfoldable pub add_state_topic : String → String → BusRouter → BusRouter
add_state_topic topic key r = record r { state_topics = insert topic key r.state_topics }

unfoldable pub add_state_topics : Dict String String → BusRouter → BusRouter
unfolding add_state_topic
add_state_topics [] r = r
add_state_topics ((key, topic) ∷ rest) r = add_state_topics rest (add_state_topic topic key r)

unfoldable pub add_response_topic : String → BusRouter → BusRouter
add_response_topic topic r = record r {
  response_topics =
      if among topic r.response_topics then r.response_topics else r.response_topics ++ topic ∷ [];
}

unfoldable pub add_set_attr : String → String → Handler → BusRouter → BusRouter
add_set_attr topic name handler r =
    let old : Dict String Handler = elim (lookup topic r.set_attr_handlers) [
      | none ↦ []
      | some handlers ↦ handlers
    ] in
    record r { set_attr_handlers = insert topic (insert name handler old) r.set_attr_handlers }

unfoldable pub enable_state_logging : List String → ℕ → BusRouter → BusRouter
enable_state_logging names interval_s r = record r {
  state_log_keys = names;
  state_log_interval_s = some interval_s;
  state_log_last = 0;
}

-- `min(self.poll_interval_s, remaining)`, and 0 where the deadline has come
unfoldable pub poll_timeout : Option ℕ → ℕ → BusRouter → ℕ
poll_timeout none now r = r.poll_interval_s
poll_timeout (some deadline) now r = min r.poll_interval_s (deadline - now)

-- What a state payload stands for: a dictionary of one field named for the key, or `value`, stands
-- for the field.
unfoldable pub unwrap : String → Value → Value
unfolding last_part
unwrap state_key (dict (field f v end)) =
    if f == last_part state_key then v else if f == "value" then v else dict (field f v end)
unwrap state_key payload = payload

-- The clock of the state log; the line itself is printed.
unfoldable pub log_state : String → ℕ → BusRouter → BusRouter
log_state state_key now r = elim r.state_log_interval_s [
  | none ↦ r
  | some interval ↦
      if among state_key r.state_log_keys && leb (r.state_log_last + interval) now
      then record r { state_log_last = now }
      else r
]

-- `self.responses[response["request_id"]] = response`. A dictionary or a list is no key; a key that
-- is no text is never looked up.
unfoldable pub remember : Value → Value → BusRouter → Result BusRouter
remember (str id) response r = ok (record r { responses = insert id response r.responses })
remember (dict _) response r = raise ErrorClass.type_error "unhashable type: 'dict'"
remember (list _) response r = raise ErrorClass.type_error "unhashable type: 'list'"
remember _ response r = ok r

unfoldable pub on_state : String → ℕ → Value → BusRouter → Result BusRouter
unfolding log_state unwrap
on_state state_key now payload r = do
  state_payload ← get_item "data" payload
  ok (
      log_state state_key now
        (record r { state = insert state_key (unwrap state_key state_payload) r.state }))

unfoldable pub on_response : Value → BusRouter → Result BusRouter
unfolding remember
on_response payload r = do
  response ← get_item "data" payload
  request_id ← get_item "request_id" response
  remember request_id response r

-- The handler of a name; a name that is no text is none of the registered ones.
abbrev pub find_handler : Value → Dict String Handler → Result Handler
find_handler (str name) handlers =
    or_raise (lookup name handlers) ErrorClass.runtime_error "unknown set command"
find_handler (dict _) handlers = raise ErrorClass.type_error "unhashable type: 'dict'"
find_handler (list _) handlers = raise ErrorClass.type_error "unhashable type: 'list'"
find_handler _ handlers = raise ErrorClass.runtime_error "unknown set command"

abbrev pub convert : Option (Value → Result Value) → Value → Result Value
convert none value = ok value
convert (some cast) value = cast value

unfoldable pub on_set : Dict String Handler → Value → BusRouter → Result BusRouter
on_set handlers payload r = do
  command ← get_item "data" payload
  name ← get_item "name" command
  value ← get_item "value" command
  handler ← find_handler name handlers
  new_value ← convert handler.cast value
  ok (record r { attrs = insert (handler.target, handler.attr) new_value r.attrs })

abbrev pub after {ℓ} : {S A : Type ℓ} → A → S → Result S → Result A × S
after a s (ok s') = (ok a, s')
after a s (err e) = (err e, s)

-- The part of `pump_once` behind the receive.
unfoldable pub dispatch : ℕ → Message → BusRouter → Result (Option Message) × BusRouter
unfolding on_state on_response on_set
dispatch now (topic, payload) r =
    let as_set : Result BusRouter = elim (lookup topic r.set_attr_handlers) [
      | none ↦ ok r
      | some handlers ↦ on_set handlers payload r
    ] in
    let rest = if among topic r.response_topics then on_response payload r else as_set in
    after (some (topic, payload)) r
      (elim (lookup topic r.state_topics) [ none ↦ rest | some key ↦ on_state key now payload r ])

-- `pump_once`; `received` is what `recv_message` returns or raises.
unfoldable pub pump_once :
    ℕ → Result (Option Message) → BusRouter → Result (Option Message) × BusRouter
unfolding dispatch
pump_once now (err e) r = (err e, r)
pump_once now (ok none) r = (ok none, r)
pump_once now (ok (some m)) r = dispatch now m r

-- A fresh request id.
unfoldable pub next_request_id : BusRouter → String × BusRouter
next_request_id r = (
  "req-" <> decimal (r.request_counter + 1),
  record r { request_counter = r.request_counter + 1 },
)

-- `send_action`: the id, the message that is published, and the router.
unfoldable pub send_action : String → String → Value → ℕ → BusRouter → String × Message × BusRouter
unfolding next_request_id
send_action request_topic action params now r =
    let (request_id, r') = next_request_id r in
    let payload = dict (
      field "request_id" (str request_id)
        (field "action" (str action) (field "params" params end))) in
    (request_id, (request_topic, build_envelope r.client_id request_topic now payload), r')

-- One turn of a waiting loop: the clock at the test of the deadline, and what the pump receives.
pub record Poll : Type 0 where
  pub clock : ℕ
  pub received : Result (Option Message)

-- `return self.responses.pop(request_id)`, where the response is there.
unfoldable pub take_response : String → BusRouter → Option (Result Value × BusRouter)
take_response request_id r = elim (lookup request_id r.responses) [
  | some response ↦ some (ok response, record r { responses = remove request_id r.responses })
  | none ↦ none
]

-- `wait_response` over the turns that happen; `none` where it still waits behind the last of them.
unfoldable pub wait_response :
    ℕ → String → List Poll → BusRouter → Option (Result Value × BusRouter)
unfolding take_response
wait_response deadline request_id [] r = take_response request_id r
wait_response deadline request_id (p ∷ polls) r =
    let (result, r') = pump_once p.clock p.received r in
    elim (take_response request_id r) [
      | some done ↦ some done
      | none ↦ elim (ltb deadline p.clock) [
        | true ↦ some (raise ErrorClass.runtime_error "timeout waiting for response", r)
        | false ↦ elim result [
          | err e ↦ some (err e, r')
          | ok _ ↦ wait_response deadline request_id polls r'
        ]
      ]
    ]

-- `publish_set`: the message that is published.
unfoldable pub publish_set : String → String → Value → ℕ → BusRouter → Message
publish_set topic name value now r = (
  topic,
  build_envelope r.client_id topic now (dict (field "name" (str name) (field "value" value end))),
)
