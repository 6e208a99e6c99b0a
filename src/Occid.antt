-- ===== src/Occid.antt =====
-- The part of OCCID's models that the program reads. OCCID itself is an installed package: its
-- `encode` and `decode` are arguments of the definitions that use them, and a class that the program
-- does not name is an `other`.
use mpfc.Prelude.{String, Bool, Option, nat_equality, string_equality, pair_equality}
use mpfc.Exec.{ErrorClass, Result, ok, ◌>>=◌, raise}
use mpfc.Json.{Value, str, get_item}

-- The Command classes that the controller forwards, and any other.
pub data CommandFamily : Type 0 where
  state_change process_control configuration motion resource execution : CommandFamily
  other_command : String → CommandFamily

pub record Command : Type 0 where
  pub family : CommandFamily
  pub target_uid : String
  pub body : Value

-- The Input classes that the controller relays, and any other.
pub data InputFamily : Type 0 where
  control_attitude_setpoint control_override : InputFamily
  other_input : String → InputFamily

pub record Input : Type 0 where
  pub family : InputFamily
  pub body : Value

pub record NavReadinessState : Type 0 where
  pub armable : Bool
  pub ekf_using_gps : Bool
  pub arm_ready : Bool
  pub takeoff_ready : Bool

pub record NavigationValidity : Type 0 where
  pub local_position_ok : Bool
  pub global_position_ok : Bool
  pub home_position_ok : Bool

pub record FlightControlState : Type 0 where
  pub armed : Bool
  pub in_air : Bool
  pub readiness : Option NavReadinessState
  pub navigation_validity : Option NavigationValidity

-- A decoded model, by the class tests of the program.
pub data Model : Type 0 where
  command : Command → Model
  input : Input → Model
  flight_control : FlightControlState → Model
  location_state : Value → Model
  other_model : String → Model

-- What the program uses of the package: `unpack_occid` and `pack_occid` as a whole, and the blank
-- models that it builds.
pub record Codec : Type 0 where
  pub unpack : Value → Result Model
  pub pack : Model → Value
  pub blank_readiness : NavReadinessState
  pub blank_navigation : NavigationValidity

-- `type(command).__name__`
abbrev pub family_name : CommandFamily → String
family_name CommandFamily.state_change = "StateChangeCommand"
family_name CommandFamily.process_control = "ProcessControlCommand"
family_name CommandFamily.configuration = "ConfigurationCommand"
family_name CommandFamily.motion = "MotionCommand"
family_name CommandFamily.resource = "ResourceCommand"
family_name CommandFamily.execution = "ExecutionCommand"
family_name (CommandFamily.other_command name) = name

-- `str(v)`, where `show` is Python's `str` of a value that is no text
abbrev pub text_of : (Value → String) → Value → String
text_of show (str s) = s
text_of show v = show v

abbrev pub as_command : Model → Result Command
as_command (Model.command k) = ok k
as_command _ = raise ErrorClass.type_error "request payload is not OCCID Command"

-- `decode_occid_command` of lib/occid_bus.py
unfoldable pub decode_occid_command : Codec → (Value → String) → Value → Result (String × Command)
decode_occid_command codec show request = do
  id ← get_item "request_id" request
  packed ← get_item "command" request
  model ← codec.unpack packed
  k ← as_command model
  ok (text_of show id, k)

abbrev pub as_input : Model → Result Input
as_input (Model.input i) = ok i
as_input _ = raise ErrorClass.type_error "input payload is not OCCID Input"

-- `decode_occid_input` of lib/occid_bus.py
unfoldable pub decode_occid_input : Codec → Value → Result Input
decode_occid_input codec payload = do model ← codec.unpack payload; as_input model

-- `type(model).__name__`
abbrev pub input_name : InputFamily → String
input_name InputFamily.control_attitude_setpoint = "ControlAttitudeSetpoint"
input_name InputFamily.control_override = "ControlOverride"
input_name (InputFamily.other_input name) = name
