-- ===== src/Config/Names.antt =====
-- main.py: `resolve_enum_value`, `resolve_enum_list`, `resolve_vehicle_config` and the `supports` of a
-- plugin: the names of OCCID enumerations in the configuration. An enumeration is its class's name and
-- the names of its members.
use Prim.Native.Char.{Char, code}
use mpfc.Prelude.{
  String, Bool, not, ◌&&◌, ◌||◌, Option, none, some, List, [], ◌∷◌, nat_equality, string_equality,
  pair_equality, ◌==◌, leb, if◌then◌else◌, is_some, any,
}
use mpfc.Exec.{ErrorClass, Result, ok, ◌>>=◌, ◌>>◌, raise, raise_if, or_raise}
use mpfc.Json.{Value, Items, Fields, null, str, list, dict, nil, cons, get, put}

pub record EnumType : Type 0 where
  pub name : String
  pub members : List String

-- The characters that `str.strip` removes.
abbrev pub is_space : Char → Bool
is_space c =
    let n = code c in
    (leb 9 n && leb n 13)
    || (leb 28 n && leb n 32)
    || n == 133
    || n == 160
    || n == 5760
    || (leb 8192 n && leb n 8202)
    || n == 8232
    || n == 8233
    || n == 8239
    || n == 8287
    || n == 12288

unfoldable pub lstrip : String → String
lstrip String.[] = ""
lstrip (String.◌∷◌ c s) = let rest = lstrip s in if is_space c then rest else String.◌∷◌ c s

unfoldable pub rstrip : String → String
rstrip String.[] = ""
rstrip (String.◌∷◌ c s) =
    let rest = rstrip s in if is_space c && rest == "" then "" else String.◌∷◌ c rest

-- `token.rsplit(".", 1)`, where there is a dot.
unfoldable pub rsplit_dot : String → Option (String × String)
rsplit_dot String.[] = none
rsplit_dot (String.◌∷◌ c s) = elim (rsplit_dot s) [
  | some (front, back) ↦ some (String.◌∷◌ c front, back)
  | none ↦ if code c == b'.' then some ("", s) else none
]

abbrev pub known_member : String → EnumType → Result String
known_member token enum_type =
    if any (λ m. m == token) enum_type.members
    then ok token
    else raise ErrorClass.runtime_error "unknown OCCID enum value"

-- `resolve_enum_value`
unfoldable pub resolve_enum_value : Value → EnumType → Result String
unfolding lstrip rstrip rsplit_dot
resolve_enum_value (str raw) enum_type = elim (rsplit_dot (rstrip (lstrip raw))) [
  | none ↦ known_member (rstrip (lstrip raw)) enum_type
  | some (enum_name, token) ↦
      if enum_name == enum_type.name
      then known_member token enum_type
      else raise ErrorClass.runtime_error "wrong OCCID enum type"
]
resolve_enum_value _ enum_type = raise ErrorClass.runtime_error "invalid enum value type"

unfoldable pub resolve_items : Items → EnumType → Result (List String)
unfolding resolve_enum_value
resolve_items nil enum_type = ok []
resolve_items (cons v vs) enum_type = do
  token ← resolve_enum_value v enum_type
  rest ← resolve_items vs enum_type
  ok (token ∷ rest)

-- `resolve_enum_list`
unfoldable pub resolve_enum_list : Value → EnumType → Result (List String)
unfolding resolve_items
resolve_enum_list (list vs) enum_type = resolve_items vs enum_type
resolve_enum_list _ enum_type = raise ErrorClass.runtime_error "invalid enum list type"

-- The enumerations that a vehicle's description takes its values from.
pub record VehicleEnums : Type 0 where
  pub autopilot : EnumType
  pub airframe : EnumType
  pub telemetry : EnumType

abbrev resolve_key : String → EnumType → Fields → Result Fields
resolve_key key enum_type vehicle = do
  raw ← or_raise (get key vehicle) ErrorClass.key_error key
  token ← resolve_enum_value raw enum_type
  ok (put key (str token) vehicle)

abbrev resolve_fields : VehicleEnums → Fields → Result Fields
resolve_fields enums vehicle = do
  with_autopilot ← resolve_key "autopilot" enums.autopilot vehicle
  raise_if (not (is_some (get "airframe" with_autopilot))) ErrorClass.runtime_error
      "vehicle config missing airframe"
  with_airframe ← resolve_key "airframe" enums.airframe with_autopilot
  resolve_key "telem_type" enums.telemetry with_airframe

abbrev resolve_vehicle : VehicleEnums → Value → Result (Option Fields)
resolve_vehicle enums null = ok none
resolve_vehicle enums (dict vehicle) = do
  resolved ← resolve_fields enums vehicle
  ok (some resolved)
resolve_vehicle enums _ = raise ErrorClass.runtime_error "invalid vehicle config type"

-- `resolve_vehicle_config`
unfoldable pub resolve_vehicle_config : VehicleEnums → Fields → Result (Option Fields)
resolve_vehicle_config enums config = elim (get "vehicle" config) [
  | none ↦ ok none
  | some vehicle ↦ resolve_vehicle enums vehicle
]
