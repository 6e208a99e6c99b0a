-- ===== src/Mavsdk.antt =====
-- plugins/mavsdk_interface/mavsdk_interface.py: the adapter between OCCID commands and the mavsdk
-- package. Its tasks share one thread and give way to one another at each `await`, so that a method is a
-- coroutine: it ends, or it suspends at a call of the package with what follows the call's answer. A
-- physical quantity is a whole number in a fixed small unit; a stick position is in thousandths.
pub mod Commands
pub mod Direct
pub mod Inputs
pub mod Telemetry
pub mod Tasks
pub mod Guards
pub mod Permits
pub mod Steers
pub mod Watching
pub mod Running
pub mod Overtaking
pub mod Tests
use mpfc.Prelude.{
  ℕ, zero, suc, ◌+◌, ◌-◌, ◌*◌, ◌/◌, ◌%◌, ◌≤◌, ◌<◌, min, max, String, ◌≡◌, refl, sym, ap, ◌∙◌, ◌≢◌,
  ◌↔◌, ◌⊎◌, inl, inr, Bool, true, false, not, ◌&&◌, ◌||◌, Option, none, some, List, [], ◌∷◌, ◌++◌,
  map, arith, eq_iff, Equality, nat_equality, string_equality, pair_equality, ◌==◌, beq_refl,
  beq-sym, beq→eq, ne→beq, ltb, leb, if◌then◌else◌, is_some, ltb→lt, lt→ltb, ge→ltb, ltb→ge,
  Bool-cases, Option-cases, length, length-append, any, all, keep, All, All-append,
}
use mpfc.Dict.{Dict, lookup, contains, insert, remove, keys}
use mpfc.Exec.{
  ErrorClass, Error, error, is_data_error, is_exception, Result, ok, err, raise, raise_if, or_raise,
  >>=-eq-ok, ok-injective, Result-cases,
}
use mpfc.Prelude.Int.{ℤ, pos, negsuc, ltb_ℤ}
use mpfc.Json.{Value}
use mpfc.Occid.{Codec}
use mpfc.Runtime.{Runtime}
use mpfc.Scheduler.{StateScheduler}
use mpfc.Semantics.{StateChange, ProcessControl, Configuration, Motion}
use mpfc.Msp.Telemetry.{ControlAxes}

-- A call of the package that makes the vehicle do something, or the wait of a task for its queue.
pub data Call : Type 0 where
  arm disarm hold takeoff land return_to_launch : Call
  set_takeoff_altitude : ℤ → Call
  goto_location : Value → Call
  set_attitude : Value → Call
  start_offboard stop_offboard start_altitude_control : Call
  set_manual_control_input : ℤ → ℤ → ℕ → ℤ → Call
  wait_request wait_input : Call

-- `occid.ControlOverride`; the index of a channel may be negative.
pub record SignedChannel : Type 0 where
  pub channel_index : ℤ
  pub value : Option ℤ

pub record DirectOverride : Type 0 where
  pub roll : Option ℤ
  pub pitch : Option ℤ
  pub yaw : Option ℤ
  pub throttle : Option ℤ
  pub aux : List SignedChannel

pub record Readiness : Type 0 where
  pub gyro_ok : Bool
  pub accel_ok : Bool
  pub mag_ok : Bool
  pub local_position_ok : Bool
  pub global_position_ok : Bool
  pub home_position_ok : Bool
  pub armable : Bool
  pub can_arm_or_run : Bool
  pub ekf_using_gps : Bool
  pub mode_name : Option String

pub record Validity : Type 0 where
  pub local_position_ok : Bool
  pub global_position_ok : Bool
  pub home_position_ok : Bool

-- The fields of the flight control state that the adapter sets.
pub record FlightControl : Type 0 where
  pub armed : Option Bool
  pub in_air : Option Bool
  pub override_active : Option Bool
  pub attitude_setpoint : Option Value
  pub standard_mode : Option Value
  pub readiness : Readiness
  pub navigation_validity : Validity

pub record Gnss : Type 0 where
  pub fix_type : Option Value
  pub satellites_used : Option ℕ
  pub raw : Option Value

-- What OCCID makes of a model on its way to the bus, how the fields of a command or an input are read,
-- and what its conversions for mavsdk give.
pub record Readers : Type 0 where
  pub show : Value → String
  pub trace : Error → String
  pub state_change : Value → StateChange
  pub process_control : Value → ProcessControl
  pub configuration : Value → Configuration
  pub motion : Value → Motion
  pub override : Value → DirectOverride
  pub attitude_setpoint_to_fields : Value → Result Value
  pub goto_command_to_fields : Value → Option ℤ → Option ℤ → Option Value → Result Value
  pub pack_flight_control : FlightControl → Value
  pub pack_control_axes : ControlAxes → Value
  pub pack_gnss : Gnss → Value

-- What does not change after `__init__`.
pub record Settings : Type 0 where
  pub codec : Codec
  pub readers : Readers
  pub is_standard_mode : String → Bool
  pub is_ardupilot : Bool
  pub consume_control_override : Bool
  pub control_override_timeout_s : ℕ
  pub request_topic : String
  pub response_topic : String
  pub input_topic : String

-- `clock` is the monotonic clock. `completed` are the calls that went through, the latest first. The
-- sample of `control_override` is the body of its input. `last_model` is the class of `model`, a local
-- variable of `_process_inputs` that keeps its value from one input to the next.
pub record MavsdkInterface : Type 0 where
  pub runtime : Runtime
  pub state_scheduler : StateScheduler
  pub clock : ℕ
  pub completed : List Call
  pub request_queue : List Value
  pub input_queue : List Value
  pub stop_event : Bool
  pub last_abs_alt_m : Option ℤ
  pub last_rel_alt_m : Option ℤ
  pub last_attitude : Option Value
  pub gnss_state : Gnss
  pub nav_validity : Validity
  pub readiness : Readiness
  pub flight_control : FlightControl
  pub control_output : ControlAxes
  pub control_override : Option Value
  pub control_override_updated_at : ℕ
  pub direct_control_mode : Option String
  pub manual_control_started : Bool
  pub offboard_attitude_started : Bool
  pub last_model : Option String

-- A coroutine, run as far as its next `await`.
pub data Co (A : Type 0) : Type 0 where
  done : Result A → MavsdkInterface → Co A
  await : Call → MavsdkInterface → (Result (Unit {0}) → MavsdkInterface → Co A) → Co A

abbrev pub Act : Type 0 → Type 0
Act A = MavsdkInterface → Co A

unfoldable pub go_on : {A B : Type 0} → (A → Act B) → Co A → Co B
go_on f (done (ok a) g) = f a g
go_on f (done (err e) g) = done (err e) g
go_on f (await c g k) = await c g (λ r h. go_on f (k r h))

infixl 5 ◌>>=◌ ◌>>◌
abbrev pub ◌>>=◌ : {A B : Type 0} → Act A → (A → Act B) → Act B
◌>>=◌ m f g = go_on f (m g)

abbrev pub ◌>>◌ : {B : Type 0} → Act (Unit {0}) → Act B → Act B
m >> n = m >>= λ _. n

abbrev pub pure : {A : Type 0} → A → Act A
pure a g = done (ok a) g

abbrev pub lift : {A : Type 0} → Result A → Act A
lift r g = done r g

abbrev pub unsupported : {A : Type 0} → String → Act A
unsupported text g = done (raise ErrorClass.unsupported_command text) g

abbrev pub change : (MavsdkInterface → MavsdkInterface) → Act (Unit {0})
change f g = done (ok tt) (f g)

-- `await` of a call of the package.
abbrev pub call : Call → Act (Unit {0})
call c g = await c g done

-- `try` around a coroutine; the handler gives what follows an error.
unfoldable pub handle : (Error → Act (Unit {0})) → Co (Unit {0}) → Co (Unit {0})
handle f (done (ok a) g) = done (ok a) g
handle f (done (err e) g) = f e g
handle f (await c g k) = await c g (λ r h. handle f (k r h))
