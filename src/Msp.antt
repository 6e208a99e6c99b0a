-- ===== src/Msp.antt =====
-- plugins/msp_interface/msp_interface.py: the adapter between OCCID commands and a flight controller
-- that speaks MSP. The MSP package is an argument: `answer` says what it answers to a call after the
-- calls before it, and
-- `is_standard_mode` which names are members of `StandardFlightMode`. A physical quantity is a whole number in a fixed small unit.
pub mod Channels
pub mod Flight
pub mod Commands
pub mod Loops
pub mod Telemetry
pub mod Main
pub mod Stability
pub mod Frame
pub mod Waits
pub mod Answers
pub mod Throttle
pub mod Climb
pub mod Descent
pub mod Steering
pub mod Merging
pub mod Tests
use mpfc.Semantics.{ControlOverride, StateChange, ProcessControl, Configuration, Motion}
use mpfc.Prelude.{
  ℕ, zero, suc, ◌+◌, ◌-◌, ◌*◌, ◌/◌, ◌%◌, ◌≤◌, ◌<◌, min, max, String, ◌≡◌, refl, sym, ap, ◌∙◌, ◌≢◌,
  ◌↔◌, ◌⊎◌, inl, inr, Bool, true, false, not, ◌&&◌, ◌||◌, Option, none, some, List, [], ◌∷◌, ◌++◌,
  map, arith, eq_iff, Equality, nat_equality, string_equality, pair_equality, ◌==◌, beq_refl,
  beq-sym, beq→eq, ne→beq, ltb, leb, if◌then◌else◌, is_some, ltb→lt, lt→ltb, ge→ltb, ltb→ge,
  Bool-cases, Option-cases, length, length-append, any, all, keep, All, All-append,
}
use mpfc.Dict.{Dict, lookup, contains, insert, remove, keys}
use mpfc.Exec.{ErrorClass, Error, error, Result, ok, err, raise}
use mpfc.Prelude.Int.{ℤ}
use mpfc.Json.{Value}
use mpfc.Occid.{Command, Codec}
use mpfc.Runtime.{Runtime}
use mpfc.Scheduler.{StateScheduler}

-- An entry of `mode_channels`, and of the mode ranges that it is built from.
pub record ModeChannel : Type 0 where
  pub channel : String
  pub pwm : ℕ

pub record ModeRange : Type 0 where
  pub mode : String
  pub aux_index : ℕ
  pub pwm_start : ℕ
  pub pwm_end : ℕ

-- The settings of `go_to_waypoint`, which go with the destination.
pub record Waypoint : Type 0 where
  pub index : ℕ
  pub action : ℕ
  pub param1 : ℕ
  pub param2 : ℕ
  pub param3 : ℕ
  pub flag : ℕ

-- A call of the MSP package that makes the vehicle do something.
pub data Call : Type 0 where
  set_rc_channels : Dict String ℕ → Call
  set_waypoint : Waypoint → ℤ → ℤ → ℤ → Call

-- How the fields of a command or an input are read, which is OCCID's part; Python's `str` of a value
-- that is no text; and the traceback of an error.
pub record Readers : Type 0 where
  pub state_change : Value → StateChange
  pub process_control : Value → ProcessControl
  pub configuration : Value → Configuration
  pub motion : Value → Motion
  pub control_override : Value → ControlOverride
  pub show : Value → String
  pub trace : Error → String

-- What does not change after `__init__`.
pub record Settings : Type 0 where
  pub codec : Codec
  pub readers : Readers
  pub answer : List Call → Call → Result (Unit {0})
  pub is_standard_mode : String → Bool
  pub normalized_to_pwm : ℤ → ℕ → ℕ → ℕ
  pub chmap : List String
  pub mode_channels : Dict String ModeChannel
  pub rx_min : ℕ
  pub rx_max : ℕ
  pub roll_channel : String
  pub pitch_channel : String
  pub yaw_channel : String
  pub throttle_channel : String
  pub takeoff_throttle : ℕ
  pub hover_throttle : ℕ
  pub landing_throttle : ℕ
  pub takeoff_timeout : ℕ
  pub landing_timeout : ℕ
  pub in_air_alt_threshold : ℤ
  pub home_min_satellites : ℕ
  pub override_send_interval : ℕ
  pub control_override_timeout : ℕ
  pub go_to_waypoint : Waypoint
  pub request_topic : String
  pub response_topic : String
  pub input_topic : String

-- The flight control state, as far as the adapter's own code reads it again.
pub record FlightControl : Type 0 where
  pub armed : Bool
  pub in_air : Bool
  pub override_active : Bool
  pub failsafe : Bool
  pub armable : Bool
  pub local_position_ok : Bool
  pub global_position_ok : Bool
  pub home_position_ok : Bool

-- `direct_control_mode` holds the name of a mode. `sent` are the calls made so far, in their order.
pub record MspInterface : Type 0 where
  pub runtime : Runtime
  pub state_scheduler : StateScheduler
  pub sent : List Call
  pub takeoff_altitude_m : Option ℤ
  pub control_override : Option ControlOverride
  pub control_override_updated_at : ℕ
  pub direct_control_mode : Option String
  pub latest_flight_control : Option FlightControl
  pub latest_altitude : Option ℤ
  pub request_queue : List Value
  pub stop_event : Bool
  pub loop_error : Option Error
  pub loop_error_source : Option String
  pub loop_error_published : Bool
  pub shutdown_requested : Bool

-- What the other threads show at a turn of a waiting loop: the clock, whether they stopped the adapter,
-- and the relative altitude of the latest location, if there is one.
pub record Tick : Type 0 where
  pub clock : ℕ
  pub stopped : Bool
  pub altitude : Option ℤ

pub record World : Type 0 where
  pub node : MspInterface
  pub script : List Tick

-- A method that may raise, and what it leaves of the adapter.
abbrev pub Act : Type 0 → Type 0
Act A = MspInterface → Result A × MspInterface

abbrev pub go_on : {A B : Type 0} → (A → Act B) → Result A → Act B
go_on f (ok a) g = f a g
go_on f (err e) g = (err e, g)

infixl 5 ◌>>=◌ ◌>>◌
abbrev pub ◌>>=◌ : {A B : Type 0} → Act A → (A → Act B) → Act B
◌>>=◌ m f g = go_on f (m g).0 (m g).1

abbrev pub ◌>>◌ : {B : Type 0} → Act (Unit {0}) → Act B → Act B
m >> n = m >>= λ _. n

abbrev pub pure : {A : Type 0} → A → Act A
pure a g = (ok a, g)

abbrev pub lift : {A : Type 0} → Result A → Act A
lift r g = (r, g)

abbrev pub unsupported : {A : Type 0} → String → Act A
unsupported text g = (raise ErrorClass.unsupported_command text, g)

abbrev pub change : (MspInterface → MspInterface) → Act (Unit {0})
change f g = (ok tt, f g)

-- A method that may wait; `none` where the turns end before it does.
abbrev pub Job : Type 0
Job = World → Option (Result (Unit {0}) × World)

abbrev pub at_once : Act (Unit {0}) → Job
at_once m w = some ((m w.node).0, record w { node = (m w.node).1 })

abbrev pub resume : Job → Result (Unit {0}) → Job
resume job (ok _) w = job w
resume job (err e) w = some (err e, w)

-- A method that does not wait, and then one that may.
abbrev pub afterwards : Act (Unit {0}) → Job → Job
afterwards m job w = resume job (m w.node).0 (record w { node = (m w.node).1 })

-- A call of the package, under `api_lock`.
unfoldable pub tell : Settings → Call → Act (Unit {0})
tell s call g = (s.answer g.sent call, record g { sent = g.sent ++ call ∷ [] })
