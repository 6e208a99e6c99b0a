-- ===== src/Controller/Backend.antt =====
-- The direct inputs, the backend's messages and the turns of `run` in
-- plugins/uav_controller/uav_controller.py.
use mpfc.Prelude.{
  ℕ, String, Bool, true, false, not, Option, none, some, nat_equality, string_equality,
  pair_equality, ◌==◌, if◌then◌else◌,
}
use mpfc.Dict.{lookup}
use mpfc.Exec.{ErrorClass, is_data_error, Result, ok, err, ◌>>=◌, ◌>>◌, raise, raise_if}
use mpfc.Json.{Value, str, dict, end, field, get_item}
use mpfc.Occid.{InputFamily, FlightControlState, Model, decode_occid_input}
use mpfc.Router.{Message, pump_once}
use mpfc.Runtime.{diag_topic, publish_event, flush_queue}
use mpfc.Controller.{
  Settings, UavController, post_message, publish_state, publish_controller_flight_control,
}
use mpfc.Controller.Requesting.{forward_backend_response, expire_pending_requests, handle_request}

abbrev pub is_direct : InputFamily → Bool
is_direct (InputFamily.other_input _) = false
is_direct _ = true

-- `_handle_input`
unfoldable pub handle_input : Settings → ℕ → Value → UavController → Result UavController
handle_input s wall payload c = do
  i ← decode_occid_input s.codec payload
  raise_if (not (is_direct i.family)) ErrorClass.type_error
      "uav_controller accepts direct UAV input types only"
  ok (post_message s.backend_input_topic (s.codec.pack (Model.input i)) wall c)

abbrev pub as_flight_control : Model → Result FlightControlState
as_flight_control (Model.flight_control f) = ok f
as_flight_control _ =
    raise ErrorClass.runtime_error "backend flight_control payload must be FlightControlState"

-- A state message of the backend: flight control goes through the readiness policy, the rest is
-- passed on, and a location makes the policy run again.
unfoldable pub on_backend_state :
    Settings → ℕ → ℕ → String → Value → UavController → Result UavController
on_backend_state s now wall key payload c =
    let as_flight = (do
      model ← s.codec.unpack payload
      flight ← as_flight_control model
      publish_controller_flight_control s now wall
          (record c { backend_flight_control = some flight })) in
    let as_other = (do
      c' ← publish_state s key payload wall c
      if key == "location" then publish_controller_flight_control s now wall c' else ok c') in
    if key == "flight_control" then as_flight else as_other

abbrev pub or_stay : UavController → Result UavController → Result (Unit {0}) × UavController
or_stay c (ok c') = (ok tt, c')
or_stay c (err e) = (err e, c)

-- The part of `_pump_controller_once` behind `_pump_once`.
unfoldable pub route_message :
    Settings → ℕ → ℕ → Message → UavController → Result (Unit {0}) × UavController
unfolding on_backend_state
route_message s now wall (topic, payload) c =
    let event : Result UavController = elim (lookup topic s.backend_event_topic_to_key) [
      | none ↦ ok c
      | some key ↦ get_item "data" payload >>= λ v.
          publish_event key v wall c.runtime >>= λ r. ok (record c { runtime = r })
    ] in
    let response : Result (Unit {0}) × UavController = elim (get_item "data" payload) [
      | err e ↦ (err e, c)
      | ok v ↦ forward_backend_response s v c
    ] in
    elim (lookup topic s.backend_state_topic_to_key) [
      | some key ↦ or_stay c (get_item "data" payload >>= λ v. on_backend_state s now wall key v c)
      | none ↦ if topic == s.backend_response_topic then response else or_stay c event
    ]

-- `_pump_controller_once`
unfoldable pub pump_controller_once :
    Settings
    → ℕ
    → ℕ
    → Result (Option Message)
    → UavController
    → Result (Option Message) × UavController
unfolding route_message
pump_controller_once s now wall received c =
    let (result, bus) = pump_once now received c.bus in
    let c' = record c { bus = bus } in
    elim result [
      | err e ↦ (err e, c')
      | ok none ↦ (ok none, c')
      | ok (some m) ↦
          let (done, c'') = route_message s now wall m c' in (done >>= λ _. ok (some m), c'')
    ]

-- A rejected input is reported, and the loop goes on.
unfoldable pub on_input :
    Settings → ℕ → Result Value → UavController → Result (Unit {0}) × UavController
unfolding handle_input
on_input s wall payload c = elim (payload >>= λ v. handle_input s wall v c) [
  | ok c' ↦ (ok tt, c')
  | err e ↦
      let topic = diag_topic c.runtime.client_id "INPUT_REJECTED" in
      let report = dict (field "event" (str "INPUT_REJECTED") (field "error" (str e.text) end)) in
      if is_data_error e then (ok tt, post_message topic report wall c) else (err e, c)
]

abbrev pub flush_responses : Settings → ℕ → UavController → UavController
flush_responses s wall c = record c { runtime = flush_queue s.response_topic wall c.runtime }

abbrev pub on_request :
    Settings → ℕ → ℕ → Result Value → UavController → Result (Unit {0}) × UavController
on_request s now wall (err e) c = (err e, c)
on_request s now wall (ok v) c = handle_request s now wall v c

-- What `run` does with the message that a pump hands on.
unfoldable pub serve_message :
    Settings → ℕ → ℕ → Message → UavController → Result (Unit {0}) × UavController
serve_message s now wall (topic, payload) c =
    if topic == s.request_topic
    then on_request s now wall (get_item "data" payload) c
    else if topic == s.input_topic
    then on_input s wall (get_item "data" payload) c
    else (ok tt, c)

-- One turn of the loop of `run`; an exception ends the loop.
unfoldable pub turn :
    Settings → ℕ → ℕ → Result (Option Message) → UavController → Result (Unit {0}) × UavController
turn s now wall received c =
    let ready = expire_pending_requests s now (flush_responses s wall c) in
    let (result, pumped) = pump_controller_once s now wall received ready in
    elim result [
      | err e ↦ (err e, pumped)
      | ok none ↦ (ok tt, pumped)
      | ok (some m) ↦
          let (done, served) = serve_message s now wall m pumped in
          elim done [ err e ↦ (err e, served) | ok _ ↦ (ok tt, flush_responses s wall served) ]
    ]
