-- ===== src/Semantics.antt =====
-- The commands and direct inputs that the adapters share, as OCCID's fields give them, and
-- lib/uav_semantics.py. An operation that the adapters do not name is an `other`.
use mpfc.Prelude.{
  ℕ, String, Bool, true, false, Option, none, some, List, [], ◌∷◌, nat_equality, string_equality,
  pair_equality, if◌then◌else◌,
}
use mpfc.Exec.{ErrorClass, Result, ok, err, raise}
use mpfc.Prelude.Int.{ℤ}

pub record AuxChannel : Type 0 where
  pub channel_index : ℕ
  pub value : Option ℤ

-- `occid.ControlOverride`
pub record ControlOverride : Type 0 where
  pub roll : Option ℤ
  pub pitch : Option ℤ
  pub yaw : Option ℤ
  pub throttle : Option ℤ
  pub aux : List AuxChannel

-- Altitude datums: the one that INAV takes, and any other by its name.
pub data Datum : Type 0 where
  relative : Datum
  other_datum : String → Datum

pub record Destination : Type 0 where
  pub lat : ℤ
  pub lon : ℤ
  pub alt : ℤ
  pub alt_frame : Datum

-- The operations of the command families; one that the adapter does not name is an `other`.
pub data StateOperation : Type 0 where
  set enable disable other_state : StateOperation

pub data ProcessOperation : Type 0 where
  start halt other_process : ProcessOperation

pub data ConfigurationOperation : Type 0 where
  set_parameter other_configuration : ConfigurationOperation

pub data MotionOperation : Type 0 where
  move_to maintain halt_motion other_motion : MotionOperation

-- `occid.MetadataValue`
pub record MetadataValue : Type 0 where
  pub as_str : Option String
  pub as_int : Option ℤ
  pub as_float : Option ℤ
  pub as_bool : Option Bool

pub record StateChange : Type 0 where
  pub property_name : String
  pub operation : StateOperation
  pub value : Option MetadataValue

pub record ProcessControl : Type 0 where
  pub operation : ProcessOperation
  pub process_name : Option String

pub record Configuration : Type 0 where
  pub operation : ConfigurationOperation
  pub parameter_name : String
  pub value : Option MetadataValue

pub record Motion : Type 0 where
  pub operation : MotionOperation
  pub destination : Option Destination

-- The one scalar of a `MetadataValue`.
pub data Scalar : Type 0 where
  no_scalar : Scalar
  text : String → Scalar
  whole : ℤ → Scalar
  real : ℤ → Scalar
  flag : Bool → Scalar

abbrev pub populate {ℓ} : {A : Type ℓ} → (A → Scalar) → Option A → List Scalar → List Scalar
populate as_scalar none rest = rest
populate as_scalar (some a) rest = as_scalar a ∷ rest

-- The list `populated`
unfoldable pub populated : MetadataValue → List Scalar
populated v =
    populate text v.as_str
      (populate whole v.as_int (populate real v.as_float (populate flag v.as_bool [])))

abbrev pub only : List Scalar → Result Scalar
only (x ∷ []) = ok x
only _ = raise ErrorClass.value_error "MetadataValue must contain exactly one scalar value"

-- `metadata_scalar` of lib/uav_semantics.py
unfoldable pub metadata_scalar : Option MetadataValue → Result Scalar
unfolding populated
metadata_scalar none = ok no_scalar
metadata_scalar (some v) = only (populated v)

-- `armed SET requires MetadataValue.bool`
abbrev pub as_flag : Scalar → Result Bool
as_flag (flag b) = ok b
as_flag _ = raise ErrorClass.unsupported_command "armed SET requires MetadataValue.bool"

unfoldable pub wanted_armed : StateOperation → Option MetadataValue → Result Bool
unfolding metadata_scalar
wanted_armed StateOperation.set value = elim (metadata_scalar value) [
  | err e ↦ err e
  | ok x ↦ as_flag x
]
wanted_armed StateOperation.enable value = ok true
wanted_armed StateOperation.disable value = ok false
wanted_armed StateOperation.other_state value =
    raise ErrorClass.unsupported_command "unsupported armed operation"

abbrev pub is_disable : StateOperation → Bool
is_disable StateOperation.disable = true
is_disable _ = false

-- The members of `occid.StandardFlightMode` are an argument, `is_member`.
abbrev pub as_mode : (String → Bool) → Scalar → Result String
as_mode is_member (text raw) =
    if is_member raw
    then ok raw
    else raise ErrorClass.unsupported_command
        "standard_flight_mode requires a StandardFlightMode name"
as_mode is_member _ =
    raise ErrorClass.unsupported_command "standard_flight_mode requires a StandardFlightMode name"

abbrev pub as_text : Scalar → Result String
as_text (text raw) = ok raw
as_text _ =
    raise ErrorClass.unsupported_command "native_flight_mode_name requires MetadataValue.str"

abbrev pub process_name_of : ProcessControl → String
process_name_of command = elim command.process_name [ none ↦ "" | some name ↦ name ]

abbrev pub as_number : Scalar → Result ℤ
as_number (whole n) = ok n
as_number (real x) = ok x
as_number _ =
    raise ErrorClass.unsupported_command "takeoff_altitude_m requires numeric MetadataValue"

abbrev pub is_set_parameter : ConfigurationOperation → Bool
is_set_parameter ConfigurationOperation.set_parameter = true
is_set_parameter _ = false
