-- ===== src/Mavsdk/Tests.antt =====
-- An adapter in the attitude process, with a setpoint in its queue.
use mpfc.Prelude.{
  ◌≡◌, refl, true, false, none, some, [], ◌∷◌, nat_equality, string_equality, pair_equality, All,
}
use mpfc.Exec.{Result, ok}
use mpfc.Prelude.Int.{pos}
use mpfc.Json.{null, str}
use mpfc.Occid.{InputFamily, Model}
use mpfc.Runtime.{Role}
use mpfc.Semantics.{StateOperation, ProcessOperation, ConfigurationOperation, MotionOperation}
use mpfc.Mavsdk.{Call, Readiness, Validity, Settings, MavsdkInterface, Co, done, await}
use mpfc.Mavsdk.Commands.{end_direct_control}
use mpfc.Mavsdk.Inputs.{process_inputs, serve_next_input}
use mpfc.Mavsdk.Direct.{handle_input}
use mpfc.Mavsdk.Tasks.{Task, TaskId, System, turn, give_way, answered, Step, Reach}
use mpfc.Mavsdk.Guards.{is_running, IsPermitted}
use mpfc.Mavsdk.Running.{Reach-IsPermitted}
use mpfc.Mavsdk.Overtaking.{handle_input-overtaken}

abbrev settings : Settings
settings = record {
  codec = record {
    unpack = λ body.
        ok (Model.input (record { family = InputFamily.control_attitude_setpoint; body = body }));
    pack = λ _. null;
    blank_readiness = record {
      armable = false;
      ekf_using_gps = true;
      arm_ready = false;
      takeoff_ready = false;
    };
    blank_navigation = record {
      local_position_ok = false;
      global_position_ok = false;
      home_position_ok = false;
    };
  };
  readers = record {
    show = λ _. "?";
    trace = λ e. e.text;
    state_change =
        λ _. record { property_name = "armed"; operation = StateOperation.enable; value = none };
    process_control =
        λ _. record { operation = ProcessOperation.halt; process_name = some "direct_control" };
    configuration = λ _. record {
      operation = ConfigurationOperation.other_configuration;
      parameter_name = "";
      value = none;
    };
    motion = λ _. record { operation = MotionOperation.maintain; destination = none };
    override =
        λ _. record { roll = none; pitch = none; yaw = none; throttle = some (pos 300); aux = [] };
    attitude_setpoint_to_fields = ok;
    goto_command_to_fields = λ body _ _ _. ok body;
    pack_flight_control = λ _. null;
    pack_control_axes = λ _. null;
    pack_gnss = λ _. null;
  };
  is_standard_mode = λ _. true;
  is_ardupilot = true;
  consume_control_override = true;
  control_override_timeout_s = 30;
  request_topic = "mavsdk/UAV/REQUEST";
  response_topic = "mavsdk/UAV/RESPONSE";
  input_topic = "mavsdk/UAV/INPUT";
}

abbrev validity : Validity
validity = record { local_position_ok = true; global_position_ok = true; home_position_ok = true }

abbrev readiness : Readiness
readiness = record {
  gyro_ok = true;
  accel_ok = true;
  mag_ok = true;
  local_position_ok = true;
  global_position_ok = true;
  home_position_ok = true;
  armable = true;
  can_arm_or_run = true;
  ekf_using_gps = false;
  mode_name = none;
}

abbrev adapter : MavsdkInterface
adapter = record {
  runtime = record {
    role = Role.plugin;
    client_id = "mavsdk";
    client = record {
      topic_prefix = "mpfc/uav";
      inbox = [];
      connected = true;
      connect_rc = some 0;
      subscriptions = [];
      background_error = none;
      closed = false;
      wire = [];
      held = [];
    };
    stopped = false;
    event_topics = [];
    response_queue = [];
  };
  state_scheduler = record {
    client_id = "mavsdk";
    topics = ("flight_control", "mavsdk/UAV/STATE/flight_control") ∷ [];
    intervals = ("flight_control", 1) ∷ [];
    last_sent = ("flight_control", 0) ∷ [];
    state = [];
    pending = [];
  };
  clock = 100;
  completed = [];
  request_queue = [];
  input_queue = str "level" ∷ [];
  stop_event = false;
  last_abs_alt_m = none;
  last_rel_alt_m = none;
  last_attitude = none;
  gnss_state = record { fix_type = none; satellites_used = none; raw = none };
  nav_validity = validity;
  readiness = readiness;
  flight_control = record {
    armed = none;
    in_air = none;
    override_active = none;
    attitude_setpoint = none;
    standard_mode = none;
    readiness = readiness;
    navigation_validity = validity;
  };
  control_output = record {
    roll = some (pos 0);
    pitch = some (pos 0);
    yaw = some (pos 0);
    throttle = some (pos 0);
    aux = [];
  };
  control_override = none;
  control_override_updated_at = 0;
  direct_control_mode = some "ATTITUDE_THRUST";
  manual_control_started = false;
  offboard_attitude_started = false;
  last_model = none;
}

abbrev start : System
start = record { node = adapter; tasks = λ _. Task.idle; issued = [] }

abbrev listening : System
listening = give_way TaskId.inputs (turn settings TaskId.inputs adapter) start

-- The setpoint's call is made.
abbrev served : System
served =
    give_way TaskId.inputs
      (serve_next_input settings (ok tt) (answered Call.wait_input (ok tt) listening.node))
      listening

abbrev later : System
later = record served { node = record served.node { clock = 101 } }

Reach-IsPermitted_example :
    (later.node.offboard_attitude_started ≡ is_running later.node.completed)
    × All (λ p. IsPermitted settings p.0 p.1) later.issued
unfolding turn process_inputs give_way
Reach-IsPermitted_example =
    Reach-IsPermitted settings start later refl (λ _. refl) refl
      (Reach.next
        (Reach.next (Reach.next Reach.here (Step.begun TaskId.inputs start refl)) (
          Step.resumed TaskId.inputs Call.wait_input (serve_next_input settings) (ok tt) listening
            refl))
        (Step.ticked 101 served))

handle_input-overtaken_example :
    (k k' : Result (Unit {0}) → MavsdkInterface → Co (Unit {0})) × (h : MavsdkInterface)
    × (handle_input settings InputFamily.control_attitude_setpoint (str "level") adapter
        ≡ await (Call.set_attitude (str "level")) adapter k)
    × (end_direct_control settings adapter ≡ done (ok tt) h)
    × (h.direct_control_mode ≡ none)
    × (h.completed ≡ [])
    × (k (ok tt) (answered (Call.set_attitude (str "level")) (ok tt) h)
        ≡ await Call.start_offboard (answered (Call.set_attitude (str "level")) (ok tt) h) k')
handle_input-overtaken_example =
    handle_input-overtaken settings (str "level") (str "level") adapter refl refl refl
