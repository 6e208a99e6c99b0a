-- ===== src/Config/Apply.antt =====
-- main.py: `cast_override_value` and `apply_runtime_overrides`, which write the command line into the
-- core's configuration. Python's `float` and `json.loads` are arguments.
use Prim.Native.Char.{code}
use mathlib.Core.Option
use mpfc.Prelude.{
  ℕ, zero, suc, ◌+◌, ◌-◌, ◌*◌, String, Bool, true, false, not, ◌&&◌, Option, none, some, List, [],
  ◌∷◌, nat_equality, string_equality, pair_equality, ◌==◌, leb, if◌then◌else◌, is_some, any,
}
use mpfc.Dict.{Dict}
use mpfc.Exec.{ErrorClass, Result, ok, ◌>>=◌, raise, or_raise}
use mpfc.Prelude.Int.{ℤ, pos, negsuc}
use mpfc.Json.{Value, Fields, null, bool, int, float, str, list, dict, get, put}
use mpfc.Config.Names.{lstrip, rstrip}

pub record Readers : Type 0 where
  pub read_float : String → Result String
  pub loads : String → Result Value

-- The code of a letter in lower case; the words of a Boolean are ASCII.
abbrev lower_code : ℕ → ℕ
lower_code n = if leb b'A' n && leb n b'Z' then n + 32 else n

-- `raw.lower() == word`, for a word in lower case
unfoldable pub is_word : String → String → Bool
is_word String.[] String.[] = true
is_word (String.◌∷◌ c raw) (String.◌∷◌ d word) = lower_code (code c) == code d && is_word raw word
is_word _ _ = false

-- The digits of `int(raw)`: an underscore may stand between two of them.
unfoldable pub read_digits : Bool → ℕ → String → Option ℕ
read_digits true value String.[] = some value
read_digits false value String.[] = none
read_digits behind_digit value (String.◌∷◌ c s) =
    let is_digit = leb b'0' (code c) && leb (code c) b'9' in
    let skipped = read_digits false value s in
    let counted = read_digits true (value * 10 + (code c - 48)) s in
    if is_digit then counted else if behind_digit && code c == b'_' then skipped else none

abbrev negated : ℕ → ℤ
negated zero = pos 0
negated (suc n) = negsuc n

-- `int(raw)`, on ASCII
unfoldable pub read_int : String → Option ℤ
unfolding read_digits
read_int raw = elim (rstrip (lstrip raw)) [
  | String.[] ↦ none
  | String.◌∷◌ c s ↦
      if code c == b'-'
      then Option.map negated (read_digits false 0 s)
      else if code c == b'+'
      then Option.map pos (read_digits false 0 s)
      else Option.map pos (read_digits false 0 (String.◌∷◌ c s))
]

abbrev pub is_any : List String → String → Bool
is_any words raw = any (is_word raw) words

-- `cast_override_value`
unfoldable pub cast_override_value : Readers → String → Value → Result Value
unfolding is_word read_int
cast_override_value R raw (bool _) =
    if is_any ("1" ∷ "true" ∷ "yes" ∷ "on" ∷ []) raw
    then ok (bool true)
    else if is_any ("0" ∷ "false" ∷ "no" ∷ "off" ∷ []) raw
    then ok (bool false)
    else raise ErrorClass.runtime_error "invalid bool override value"
cast_override_value R raw (int _) = do
  n ← or_raise (read_int raw) ErrorClass.value_error "invalid literal for int()"
  ok (int n)
cast_override_value R raw (float _) = do x ← R.read_float raw; ok (float x)
cast_override_value R raw (str _) = ok (str raw)
cast_override_value R raw (list _) = R.loads raw
cast_override_value R raw (dict _) = R.loads raw
cast_override_value R raw null = raise ErrorClass.runtime_error "unsupported override type NoneType"

-- What the overrides are written into. The mission is the object that `core_cfg["mission"]` held at
-- first; `attached` tells whether `core_cfg` still holds that object.
pub record Target : Type 0 where
  pub my_name : Option Value
  pub core_cfg : Fields
  pub mission : Option Fields
  pub attached : Bool

abbrev pub mission_of : Option Value → Option Fields
mission_of (some (dict m)) = some m
mission_of _ = none

abbrev pub open_target : Option Value → Fields → Target
open_target my_name core_cfg = record {
  my_name = my_name;
  core_cfg = core_cfg;
  mission = mission_of (get "mission" core_cfg);
  attached = is_some (mission_of (get "mission" core_cfg));
}

-- `core_cfg[key] = value`: the mission that was there is another object now.
abbrev pub set_core : String → Value → Target → Target
set_core key value c = record c {
  core_cfg = put key value c.core_cfg;
  attached = c.attached && not (key == "mission");
}

-- `mission_cfg[key] = value`, which `core_cfg` shows where it holds the mission.
abbrev pub set_mission : String → Value → Fields → Target → Target
set_mission key value m c = record c {
  mission = some (put key value m);
  core_cfg = if c.attached then put "mission" (dict (put key value m)) c.core_cfg else c.core_cfg;
}

abbrev pub cast_core : Readers → String → String → Value → Target → Result Target
cast_core R key raw existing c = do
  value ← cast_override_value R raw existing
  ok (set_core key value c)

abbrev pub override_name : Readers → String → Target → Result Target
override_name R raw c = do
  old ← or_raise c.my_name ErrorClass.key_error "my_name"
  name ← cast_override_value R raw old
  let named = record c { my_name = some name }
  elim (get "my_name" c.core_cfg) [
    | none ↦ ok named
    | some existing ↦ cast_core R "my_name" raw existing named
  ]

abbrev pub override_mission : Readers → String → String → Option Fields → Target → Result Target
override_mission R key raw none c = raise ErrorClass.runtime_error "override key not found"
override_mission R key raw (some m) c = elim (get key m) [
  | none ↦ raise ErrorClass.runtime_error "override key not found"
  | some existing ↦ do value ← cast_override_value R raw existing; ok (set_mission key value m c)
]

-- The body of the loop of `apply_runtime_overrides`.
unfoldable pub apply_override : Readers → String → String → Target → Result Target
unfolding cast_override_value
apply_override R key raw c =
    if key == "my_name" then override_name R raw c else elim (get key c.core_cfg) [
      | some existing ↦ cast_core R key raw existing c
      | none ↦ override_mission R key raw c.mission c
    ]

unfoldable pub apply_overrides : Readers → Dict String String → Target → Result Target
unfolding apply_override
apply_overrides R [] c = ok c
apply_overrides R ((key, raw) ∷ rest) c = apply_override R key raw c >>= apply_overrides R rest

abbrev as_fields : Value → Result Fields
as_fields (dict d) = ok d
as_fields _ = raise ErrorClass.attribute_error "object has no attribute 'get'"

abbrev put_name : Option Value → Fields → Fields
put_name none config = config
put_name (some name) config = put "my_name" name config

-- `apply_runtime_overrides`
unfoldable pub apply_runtime_overrides : Readers → Dict String String → Fields → Result Fields
unfolding apply_overrides
apply_runtime_overrides R overrides config = do
  core_value ← or_raise (get "core" config) ErrorClass.key_error "core"
  core ← as_fields core_value
  cfg_value ← or_raise (get "cfg" core) ErrorClass.key_error "cfg"
  core_cfg ← as_fields cfg_value
  c ← apply_overrides R overrides (open_target (get "my_name" config) core_cfg)
  ok (put_name c.my_name (put "core" (dict (put "cfg" (dict c.core_cfg) core)) config))
