-- ===== src/Msp/Tests.antt =====
-- The theorems on the MSP adapter at concrete inputs.
use mpfc.Semantics.{
  ConfigurationOperation, ControlOverride, MotionOperation, ProcessOperation, StateOperation,
}
use mpfc.Prelude.{
  ℕ, suc, ◌+◌, ◌/◌, ◌≡◌, refl, ◌⊎◌, true, false, none, some, List, [], ◌∷◌, ◌++◌, arith,
  nat_equality, string_equality, pair_equality,
}
use mpfc.Dict.{lookup, insert}
use mpfc.Exec.{ok}
use mpfc.Prelude.Int.{ℤ, pos, ltb_ℤ}
use mpfc.Json.{Value, null, str, dict, end, field}
use mpfc.Occid.{CommandFamily, Command, Model}
use mpfc.Runtime.{Role}
use mpfc.Msp.{
  ModeChannel, ModeRange, FlightControl, Call, set_rc_channels, Settings, MspInterface, Tick, World,
}
use mpfc.Msp.Channels.{build_mode_channels}
use mpfc.Msp.Flight.{land}
use mpfc.Msp.Loops.{process_request, override_turn}
use mpfc.Msp.Telemetry.{ControlAxes, Packing, Reading}
use mpfc.Msp.Answers.{IsServed, process_request-IsServed}
use mpfc.Msp.Climb.{arming_calls}
use mpfc.Msp.Throttle.{replicate, throttle_call}
use mpfc.Msp.Descent.{off_call, land-Landed}
use mpfc.Msp.Steering.{
  IsPermitted, FitsRange, override_turn-IsPermitted, build_mode_channels-FitsRange,
}

abbrev manual : ControlOverride
manual = record {
  roll = some (pos 200);
  pitch = none;
  yaw = none;
  throttle = some (pos 300);
  aux = record { channel_index = 1; value = some (pos 5) } ∷ [];
}

abbrev command : Command
command = record {
  family = CommandFamily.process_control;
  target_uid = "uav-1";
  body = str "takeoff";
}

abbrev settings : Settings
settings = record {
  codec = record {
    unpack = λ _. ok (Model.command command);
    pack = λ _. null;
    blank_readiness = record {
      armable = false;
      ekf_using_gps = true;
      arm_ready = false;
      takeoff_ready = false;
    };
    blank_navigation = record {
      local_position_ok = false;
      global_position_ok = false;
      home_position_ok = false;
    };
  };
  readers = record {
    state_change =
        λ _. record { property_name = "armed"; operation = StateOperation.enable; value = none };
    process_control =
        λ _. record { operation = ProcessOperation.start; process_name = some "takeoff" };
    configuration = λ _. record {
      operation = ConfigurationOperation.other_configuration;
      parameter_name = "";
      value = none;
    };
    motion = λ _. record { operation = MotionOperation.maintain; destination = none };
    control_override = λ _. manual;
    show = λ _. "?";
    trace = λ e. e.text;
  };
  answer = λ _ _. ok tt;
  is_standard_mode = λ _. true;
  normalized_to_pwm = λ _ lo hi. (lo + hi) / 2;
  chmap = "roll" ∷ "pitch" ∷ "yaw" ∷ "throttle" ∷ "ch5" ∷ "ch6" ∷ [];
  mode_channels = ("ARM", record { channel = "ch5"; pwm = 1900 }) ∷ [];
  rx_min = 1000;
  rx_max = 2000;
  roll_channel = "roll";
  pitch_channel = "pitch";
  yaw_channel = "yaw";
  throttle_channel = "throttle";
  takeoff_throttle = 1700;
  hover_throttle = 1500;
  landing_throttle = 1300;
  takeoff_timeout = 45;
  landing_timeout = 45;
  in_air_alt_threshold = pos 1;
  home_min_satellites = 6;
  override_send_interval = 4;
  control_override_timeout = 30;
  go_to_waypoint = record { index = 255; action = 1; param1 = 0; param2 = 0; param3 = 0; flag = 0 };
  request_topic = "mspapi/UAV/REQUEST";
  response_topic = "mspapi/UAV/RESPONSE";
  input_topic = "mspapi/UAV/INPUT";
}

abbrev request : Value
request = dict (field "request_id" (str "7") (field "command" (str "packed") end))

abbrev adapter : MspInterface
adapter = record {
  runtime = record {
    role = Role.plugin;
    client_id = "mspapi";
    client = record {
      topic_prefix = "mpfc/uav";
      inbox = [];
      connected = true;
      connect_rc = some 0;
      subscriptions = [];
      background_error = none;
      closed = false;
      wire = [];
      held = [];
    };
    stopped = false;
    event_topics = [];
    response_queue = [];
  };
  state_scheduler = record {
    client_id = "mspapi";
    topics = ("location", "mspapi/UAV/STATE/location") ∷ [];
    intervals = ("location", 1) ∷ [];
    last_sent = ("location", 0) ∷ [];
    state = [];
    pending = [];
  };
  sent = [];
  takeoff_altitude_m = some (pos 10);
  control_override = none;
  control_override_updated_at = 0;
  direct_control_mode = some "MANUAL_AXIS";
  latest_flight_control = none;
  latest_altitude = none;
  request_queue = request ∷ [];
  stop_event = false;
  loop_error = none;
  loop_error_source = none;
  loop_error_published = false;
  shutdown_requested = false;
}

abbrev tick : ℕ → ℕ → Tick
tick clock altitude = record { clock = clock; stopped = false; altitude = some (pos altitude) }

abbrev rising : World
rising = record { node = adapter; script = tick 1 0 ∷ tick 20 6 ∷ tick 40 12 ∷ tick 90 12 ∷ [] }

abbrev sinking : World
sinking = record { node = adapter; script = tick 1 9 ∷ tick 20 1 ∷ [] }

process_request-IsServed_example :
    (w' : World) × (process_request settings 5 rising ≡ some (ok tt, w'))
    × (w'.node.request_queue ≡ [])
    × IsServed settings 5 request [] rising w'.node
process_request-IsServed_example =
    process_request-IsServed settings 5 request [] rising refl refl refl

abbrev arming : List Call
arming = set_rc_channels (("ch5", 1900) ∷ []) ∷ []

abbrev hovering : World
hovering = record {
  node = record adapter {
    sent =
        arming
        ++ throttle_call 1700 ∷ throttle_call 1700 ∷ throttle_call 1700 ∷ throttle_call 1500 ∷ [];
    latest_altitude = some (pos 12);
  };
  script = tick 90 12 ∷ [];
}

abbrev landed : World
landed = record {
  node = record adapter {
    sent =
        arming
        ++ throttle_call 1300
          ∷ throttle_call 1300
          ∷ throttle_call 1000
          ∷ set_rc_channels (("ch5", 1000) ∷ [])
          ∷ [];
    latest_altitude = some (pos 1);
  };
  script = [];
}

land-Landed_example :
    (landed.node.stop_event ≡ true)
    ⊎ ((a : ℤ) × (k : ℕ) × (mode : ModeChannel) × (landed.node.latest_altitude ≡ some a)
        × (ltb_ℤ (pos 1) a ≡ false)
        × (lookup "ARM" settings.mode_channels ≡ some mode)
        × (landed.node.sent
            ≡ arming_calls settings
              ++ replicate (suc k) (throttle_call 1300)
              ++ throttle_call 1000 ∷ []
              ++ off_call settings mode ∷ []))
unfolding land lookup
land-Landed_example = land-Landed settings sinking landed refl

abbrev flying : FlightControl
flying = record {
  armed = true;
  in_air = true;
  override_active = true;
  failsafe = false;
  armable = true;
  local_position_ok = true;
  global_position_ok = true;
  home_position_ok = true;
}

-- A sample is held, and the flight controller follows the override.
abbrev steered : MspInterface
steered = record adapter {
  control_override = some manual;
  control_override_updated_at = 100;
  latest_flight_control = some flying;
}

override_turn-IsPermitted_example :
    IsPermitted settings
      (λ value. (omega arith, omega arith))
      120
      100
      steered
      (override_turn settings 120 100 steered)
override_turn-IsPermitted_example =
    override_turn-IsPermitted settings (λ value. (omega arith, omega arith)) 120 100 steered

abbrev axes : ControlAxes
axes = record { roll = none; pitch = none; yaw = none; throttle = none; aux = pos 1 ∷ [] }

abbrev packing : Packing
packing = record {
  flight_control = λ _. null;
  control_axes = λ _. null;
  control_override = λ _. null;
  remote_control = λ _ _ _. null;
}

abbrev reading : Reading
reading = record {
  armed = true;
  estimated_altitude = some (pos 4);
  fix_3d = true;
  num_sat = 9;
  override_box = true;
  failsafe_box = false;
  runtime_load = null;
  location = str "here";
  location_altitude = some (pos 4);
  gnss = null;
  autopilot_mission = null;
  sensor_config = null;
  attitude = null;
  angular_velocity = null;
  imu = null;
  power = null;
  rc = axes;
}

-- A direct control sample arrives, and the override thread runs.
abbrev message : Value
message = dict (field "data" (str "packed") end)

abbrev ranges : List ModeRange
ranges =
    record { mode = "ARM"; aux_index = 0; pwm_start = 1800; pwm_end = 2000 }
    ∷ record { mode = "NAV RTH"; aux_index = 9; pwm_start = 1300; pwm_end = 1701 }
    ∷ []

build_mode_channels-FitsRange_example :
    FitsRange "NAV RTH" (record { channel = "ch14"; pwm = 1500 }) ranges
unfolding build_mode_channels lookup insert
build_mode_channels-FitsRange_example =
    build_mode_channels-FitsRange (λ _. "14") settings.chmap ranges "NAV RTH"
      (record { channel = "ch14"; pwm = 1500 }) (omega arith) refl
