-- ===== src/Controller.antt =====
-- plugins/uav_controller/uav_controller.py: readiness policy, command admission and the requests
-- that wait for the backend.
pub mod Requesting
pub mod Backend
pub mod Holding
pub mod Readiness
pub mod Requests
pub mod Soundness
pub mod Counting
pub mod Accounting
pub mod Tests
use mpfc.Prelude.{
  ℕ, zero, suc, ◌+◌, ◌-◌, ◌*◌, ◌/◌, ◌%◌, ◌≤◌, ◌<◌, min, max, String, ◌≡◌, refl, sym, ap, ◌∙◌, ◌≢◌,
  ◌↔◌, ◌⊎◌, inl, inr, Bool, true, false, not, ◌&&◌, ◌||◌, Option, none, some, List, [], ◌∷◌, ◌++◌,
  map, arith, eq_iff, Equality, nat_equality, string_equality, pair_equality, ◌==◌, beq_refl,
  beq-sym, beq→eq, ne→beq, ltb, leb, if◌then◌else◌, is_some, ltb→lt, lt→ltb, ge→ltb, ltb→ge,
  Bool-cases, Option-cases, length, length-append, any, all, keep, All, All-append,
}
use mpfc.Dict.{Dict, lookup, contains, insert, remove, keys}
use mpfc.Exec.{
  ErrorClass, Error, error, is_data_error, is_exception, Result, ok, err, ◌>>=◌, ◌>>◌, raise,
  raise_if, or_raise, >>=-eq-ok, ok-injective,
}
use mpfc.Prelude.Int.{ℤ, pos, negsuc}
use mpfc.Json.{
  Value, Items, Fields, null, bool, int, float, str, list, dict, nil, cons, end, field, get,
  get_item, build_envelope,
}
use mpfc.Occid.{
  CommandFamily, Command, InputFamily, Input, NavReadinessState, NavigationValidity,
  FlightControlState, Model, Codec, family_name,
}
use mpfc.Router.{BusRouter, Message, pump_once, next_request_id}
use mpfc.Runtime.{Runtime, Response, post, diag_topic, enqueue_response, publish_event}

pub record Pending : Type 0 where
  pub request_id : String
  pub command_name : String
  pub created_at : ℕ

-- Topics and settings do not change after `__init__`. `is_ardupilot` is what `_is_ardupilot` finds in
-- the vehicle configuration; `show` is Python's `str` of a value that is no text.
pub record Settings : Type 0 where
  pub codec : Codec
  pub show : Value → String
  pub is_ardupilot : Bool
  pub target_uid : String
  pub response_timeout_s : ℕ
  pub arm_ready_hold_s : ℕ
  pub takeoff_ready_hold_s : ℕ
  pub ardupilot_arm_ready_hold_s : ℕ
  pub ardupilot_takeoff_ready_hold_s : ℕ
  pub request_topic : String
  pub response_topic : String
  pub input_topic : String
  pub state_publish_topics : Dict String String
  pub backend_request_topic : String
  pub backend_response_topic : String
  pub backend_input_topic : String
  pub backend_state_topic_to_key : Dict String String
  pub backend_event_topic_to_key : Dict String String

pub record UavController : Type 0 where
  pub runtime : Runtime
  pub bus : BusRouter
  pub arm_ready_since : Option ℕ
  pub takeoff_ready_since : Option ℕ
  pub backend_flight_control : Option FlightControlState
  pub pending_backend_requests : Dict String Pending

-- `bool(v)`
abbrev pub truthy : Value → Bool
truthy null = false
truthy (bool b) = b
truthy (int (pos n)) = not (n == 0)
truthy (int (negsuc n)) = true
truthy (float x) = not (x == "0.0") && not (x == "-0.0")
truthy (str s) = not (s == "")
truthy (list nil) = false
truthy (list (cons x xs)) = true
truthy (dict end) = false
truthy (dict (field k v d)) = true

-- `dict(v or {})`, where a list of pairs, which JSON never means by it, is refused too
abbrev pub dict_or_empty : Value → Result Value
dict_or_empty (dict d) = ok (dict d)
dict_or_empty v =
    if truthy v then raise ErrorClass.type_error "object is not a mapping" else ok (dict end)

-- `d.get(k)` where `d` may be no dictionary
abbrev pub get_attr : String → Value → Result (Option Value)
get_attr k (dict d) = ok (get k d)
get_attr k _ = raise ErrorClass.attribute_error "object has no attribute 'get'"

abbrev pub or_else {ℓ} : {A : Type ℓ} → Option A → A → A
or_else none d = d
or_else (some a) d = a

abbrev pub post_message : String → Value → ℕ → UavController → UavController
post_message topic payload wall c = record c {
  runtime = record c.runtime {
    client = post topic (build_envelope c.runtime.client_id topic wall payload) c.runtime.client;
  };
}

-- `_publish_state`
unfoldable pub publish_state : Settings → String → Value → ℕ → UavController → Result UavController
publish_state s key payload wall c = do
  topic ← or_raise (lookup key s.state_publish_topics) ErrorClass.key_error key
  ok (post_message topic payload wall c)

abbrev is_location : Model → Bool
is_location (Model.location_state _) = true
is_location _ = false

-- `_location_available`: what `unpack_occid` raises beside data errors is not caught.
unfoldable pub location_available : Settings → UavController → Result Bool
location_available s c = elim (lookup "location" c.bus.state) [
  | none ↦ ok false
  | some payload ↦ elim (s.codec.unpack payload) [
    | ok m ↦ ok (is_location m)
    | err e ↦ if is_data_error e then ok false else err e
  ]
]

-- The time at which a candidate state began.
unfoldable pub next_since : ℕ → Bool → Option ℕ → Option ℕ
next_since now true none = some now
next_since now true (some t) = some t
next_since now false since = none

-- `candidate and since is not None and now - since >= hold`
unfoldable pub held_for : ℕ → ℕ → Bool → Option ℕ → Bool
held_for now hold candidate none = false
held_for now hold candidate (some since) = candidate && leb (since + hold) now

unfoldable pub arm_hold : Settings → ℕ
arm_hold s = if s.is_ardupilot then s.ardupilot_arm_ready_hold_s else s.arm_ready_hold_s

unfoldable pub takeoff_hold : Settings → ℕ
takeoff_hold s = if s.is_ardupilot then s.ardupilot_takeoff_ready_hold_s else s.takeoff_ready_hold_s

unfoldable pub takeoff_candidate : Settings → Bool → NavReadinessState → NavigationValidity → Bool
takeoff_candidate s located readiness nav =
    readiness.armable
    && located
    && nav.local_position_ok
    && nav.global_position_ok
    && nav.home_position_ok
    && (not s.is_ardupilot || readiness.ekf_using_gps)

-- The part of `_apply_readiness_policy` behind the reading of the state.
unfoldable pub readiness_step :
    Settings
    → ℕ
    → Bool
    → NavReadinessState
    → NavigationValidity
    → UavController
    → NavReadinessState × UavController
unfolding next_since held_for arm_hold takeoff_hold takeoff_candidate
readiness_step s now located readiness nav c =
    let can_arm = readiness.armable in
    let can_take_off = takeoff_candidate s located readiness nav in
    let arm_since = next_since now can_arm c.arm_ready_since in
    let takeoff_since = next_since now can_take_off c.takeoff_ready_since in
    (
      record readiness {
        arm_ready = held_for now (arm_hold s) can_arm arm_since;
        takeoff_ready = held_for now (takeoff_hold s) can_take_off takeoff_since;
      },
      record c { arm_ready_since = arm_since; takeoff_ready_since = takeoff_since },
    )

-- `_apply_readiness_policy`
unfoldable pub apply_readiness_policy :
    Settings → ℕ → FlightControlState → UavController → Result (FlightControlState × UavController)
unfolding location_available readiness_step
apply_readiness_policy s now flight c = do
  let readiness = or_else flight.readiness s.codec.blank_readiness
  let nav = or_else flight.navigation_validity s.codec.blank_navigation
  located ← if readiness.armable then location_available s c else ok false
  let step = readiness_step s now located readiness nav c
  ok (record flight { readiness = some step.0; navigation_validity = some nav }, step.1)

-- `_publish_controller_flight_control`
unfoldable pub publish_controller_flight_control :
    Settings → ℕ → ℕ → UavController → Result UavController
unfolding apply_readiness_policy publish_state
publish_controller_flight_control s now wall c = elim c.backend_flight_control [
  | none ↦ ok c
  | some flight ↦
      if not (contains "flight_control" s.state_publish_topics)
      then ok c
      else apply_readiness_policy s now flight c >>= λ r.
          publish_state s "flight_control" (s.codec.pack (Model.flight_control r.0)) wall r.1
]
