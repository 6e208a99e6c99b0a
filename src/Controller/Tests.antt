-- ===== src/Controller/Tests.antt =====
-- A controller, a command for its vehicle and a history of readiness.
use mpfc.Prelude.{
  ℕ, String, ◌+◌, ◌≤◌, ◌≡◌, refl, ◌↔◌, ◌⊎◌, true, false, none, some, List, [], ◌∷◌, arith,
  nat_equality, string_equality, pair_equality,
}
use mpfc.Dict.{lookup}
use mpfc.Exec.{ok}
use mpfc.Json.{Value, Fields, null, str, dict, end, field}
use mpfc.Mqtt.{MqttBusClient}
use mpfc.Occid.{CommandFamily, Command, NavReadinessState, NavigationValidity, Model, Codec}
use mpfc.Runtime.{Role}
use mpfc.Controller.{readiness_step, Pending, Settings, UavController, arm_hold, takeoff_hold}
use mpfc.Controller.Requesting.{handle_request, expire_pending_requests}
use mpfc.Controller.Accounting.{Event, requests, serve_all, serve_all-balance}
use mpfc.Controller.Soundness.{IsSound, balance}
use mpfc.Controller.Requests.{
  IsAdmitted, handle_request_only-IsAdmitted, expire_pending_requests-InTime,
}
use mpfc.Controller.Readiness.{arm_ready_iff, takeoff_ready-arm_ready}
use mpfc.Controller.Holding.{Sample, step, observe, ArmableSince}

abbrev unready : NavReadinessState
unready = record { armable = false; ekf_using_gps = true; arm_ready = false; takeoff_ready = false }

abbrev no_position : NavigationValidity
no_position = record {
  local_position_ok = false;
  global_position_ok = false;
  home_position_ok = false;
}

abbrev arm : Command
arm = record { family = CommandFamily.state_change; target_uid = "uav-1"; body = null }

-- A codec to which every packed model is the command.
abbrev codec : Codec
codec = record {
  unpack = λ _. ok (Model.command arm);
  pack = λ _. str "packed";
  blank_readiness = unready;
  blank_navigation = no_position;
}

abbrev settings : Settings
settings = record {
  codec = codec;
  show = λ _. "?";
  is_ardupilot = false;
  target_uid = "uav-1";
  response_timeout_s = 10;
  arm_ready_hold_s = 2;
  takeoff_ready_hold_s = 3;
  ardupilot_arm_ready_hold_s = 4;
  ardupilot_takeoff_ready_hold_s = 5;
  request_topic = "uav/UAV/REQUEST";
  response_topic = "uav/UAV/RESPONSE";
  input_topic = "uav/UAV/INPUT";
  state_publish_topics = [];
  backend_request_topic = "mav/UAV/REQUEST";
  backend_response_topic = "mav/UAV/RESPONSE";
  backend_input_topic = "mav/UAV/INPUT";
  backend_state_topic_to_key = [];
  backend_event_topic_to_key = [];
}

abbrev client : MqttBusClient
client = record {
  topic_prefix = "mpfc/uav";
  inbox = [];
  connected = true;
  connect_rc = some 0;
  subscriptions = [];
  background_error = none;
  closed = false;
  wire = [];
  held = [];
}

abbrev controller : UavController
controller = record {
  runtime = record {
    role = Role.plugin;
    client_id = "uav";
    client = client;
    stopped = false;
    event_topics = [];
    response_queue = [];
  };
  bus = record {
    client_id = "uav";
    poll_interval_s = 1;
    state = [];
    responses = [];
    state_topics = [];
    response_topics = [];
    set_attr_handlers = [];
    attrs = [];
    request_counter = 0;
    state_log_keys = [];
    state_log_interval_s = none;
    state_log_last = 0;
  };
  arm_ready_since = none;
  takeoff_ready_since = none;
  backend_flight_control = none;
  pending_backend_requests = [];
}

abbrev request : Value
request = dict (field "request_id" (str "7") (field "command" (str "packed") end))

controller-IsSound : IsSound controller
unfolding lookup
controller-IsSound = record { unique = tt; free = λ n lt. refl }

abbrev events : List Event
events = Event.request 1 1 request ∷ Event.request 2 2 request ∷ Event.expiry 12 ∷ []

-- One request has timed out, and one still waits.
abbrev served : UavController
served =
    expire_pending_requests settings 12
      (handle_request settings 2 2 request (handle_request settings 1 1 request controller).1).1

serve_all-balance_example :
    IsSound served
    × ((asker : String)
        → balance asker served ≡ balance asker controller + requests settings asker events)
unfolding serve_all handle_request mpfc.Occid.decode_occid_command mpfc.Json.get_item
    mpfc.Controller.Requesting.check_command
serve_all-balance_example =
    serve_all-balance settings events controller served controller-IsSound refl

handle_request_only-IsAdmitted_example :
    let c' = (handle_request settings 1 1 request controller).1 in
    ((c'.runtime.client ≡ controller.runtime.client)
      × (c'.pending_backend_requests ≡ controller.pending_backend_requests))
    ⊎ IsAdmitted settings request
handle_request_only-IsAdmitted_example =
    handle_request_only-IsAdmitted settings 1 1 request controller

abbrev waiting : Pending
waiting = record { request_id = "7"; command_name = "StateChangeCommand"; created_at = 1 }

abbrev busy : UavController
busy = record controller { pending_backend_requests = ("req-1", waiting) ∷ [] }

expire_pending_requests-InTime_example :
    (lookup "req-1" busy.pending_backend_requests ≡ some waiting) × (5 ≤ 11)
unfolding lookup expire_pending_requests
expire_pending_requests-InTime_example =
    expire_pending_requests-InTime settings 5 "req-1" waiting busy refl

abbrev armable : NavReadinessState
armable = record unready { armable = true }

abbrev positioned : NavigationValidity
positioned = record { local_position_ok = true; global_position_ok = true; home_position_ok = true }

abbrev sample : ℕ → Sample
sample t = record { now = t; located = true; readiness = armable; nav = positioned }

arm_ready_iff_example :
    ((step settings (sample 3) (observe settings (sample 1 ∷ []) controller)).0.arm_ready ≡ true)
    ↔ ((t : ℕ) × (t + arm_hold settings ≤ 3) × ArmableSince t (sample 3 ∷ sample 1 ∷ []))
arm_ready_iff_example =
    arm_ready_iff settings (sample 3) (sample 1 ∷ []) controller refl (omega arith, tt)

takeoff_ready-arm_ready_example :
    ((step settings (sample 5) (observe settings (sample 1 ∷ []) controller)).0.arm_ready ≡ true)
    × (true ≡ true)
    × (true ≡ true)
    × (true ≡ true)
    × (true ≡ true)
unfolding arm_hold takeoff_hold readiness_step observe
takeoff_ready-arm_ready_example =
    takeoff_ready-arm_ready settings (sample 5) (sample 1 ∷ []) controller refl refl
      (omega arith, tt) (omega arith) refl
