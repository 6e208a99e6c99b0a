-- ===== src/Config/Templates.antt =====
-- main.py: `apply_plugin_config_templates`, `resolve_plugin_supports` and the reading of the runtime mode.
-- The plugins are a list of dictionaries, as the code takes for granted. What `load_config` reads from a
-- plugin's template is an argument.

use mpfc.Prelude.{
  String, Bool, true, false, Option, none, some, List, [], ◌∷◌, nat_equality, string_equality,
  pair_equality, ◌==◌, if◌then◌else◌,
}
use mpfc.Exec.{ErrorClass, Result, ok, ◌>>=◌, raise, or_raise}
use mpfc.Json.{Value, Items, Fields, null, str, list, dict, nil, cons, end, field, get, put}
use mpfc.Config.Merge.{deep_merge_dict}
use mpfc.Config.Names.{EnumType, VehicleEnums, resolve_enum_list, lstrip, rstrip}
use mpfc.Config.Apply.{is_word}

-- `{key: value for key, value in template.items() if key != "_notes"}`
unfoldable pub without : String → Fields → Fields
without key end = end
without key (field k v rest) = if k == key then without key rest else field k v (without key rest)

abbrev pub as_name : Option Value → Result String
as_name (some (str s)) = ok s
as_name none = raise ErrorClass.key_error "plugin"
as_name (some _) = raise ErrorClass.type_error "unsupported operand type"

-- The body of the loop of `apply_plugin_config_templates`.
unfoldable pub apply_template : (String → Result Fields) → Fields → Result Fields
unfolding without deep_merge_dict
apply_template load_template entry = do
  plugin_name ← as_name (get "plugin" entry)
  template ← load_template plugin_name
  ok (deep_merge_dict (without "_notes" template) entry)

-- `apply_plugin_config_templates`
unfoldable pub apply_plugin_config_templates :
    (String → Result Fields) → List Fields → Result (List Fields)
unfolding apply_template
apply_plugin_config_templates load_template [] = ok []
apply_plugin_config_templates load_template (entry ∷ rest) = do
  merged ← apply_template load_template entry
  others ← apply_plugin_config_templates load_template rest
  ok (merged ∷ others)

abbrev pub texts : List String → Items
texts [] = nil
texts (s ∷ ss) = cons (str s) (texts ss)

abbrev pub resolve_names : String → EnumType → Fields → Result Fields
resolve_names key enum_type supports = do
  raw ← or_raise (get key supports) ErrorClass.key_error key
  names ← resolve_enum_list raw enum_type
  ok (put key (list (texts names)) supports)

-- The two lists of a plugin's `supports`.
unfoldable pub resolve_supports : VehicleEnums → Fields → Result Fields
unfolding resolve_enum_list
resolve_supports enums supports = do
  with_autopilot ← resolve_names "autopilot" enums.autopilot supports
  resolve_names "telem_type" enums.telemetry with_autopilot

abbrev pub resolve_cfg : VehicleEnums → Option Value → Fields → Result Fields
resolve_cfg enums none cfg = ok cfg
resolve_cfg enums (some null) cfg = ok cfg
resolve_cfg enums (some (dict supports)) cfg = do
  resolved ← resolve_supports enums supports
  ok (put "supports" (dict resolved) cfg)
resolve_cfg enums (some _) cfg = raise ErrorClass.runtime_error "invalid supports config type"

-- `resolve_plugin_supports`, on the `cfg` of each plugin
unfoldable pub resolve_plugin_supports : VehicleEnums → List Fields → Result (List Fields)
unfolding resolve_supports
resolve_plugin_supports enums [] = ok []
resolve_plugin_supports enums (cfg ∷ rest) = do
  resolved ← resolve_cfg enums (get "supports" cfg) cfg
  others ← resolve_plugin_supports enums rest
  ok (resolved ∷ others)

-- `str(config.get("runtime_mode", "mission")).strip().lower()` and the test behind it: whether the runtime is
-- resident. The argument `show` is Python's `str` of a value that is no text.
abbrev mode_text : (Value → String) → Option Value → String
mode_text show none = "mission"
mode_text show (some (str s)) = s
mode_text show (some v) = show v

unfoldable pub resident_runtime : (Value → String) → Fields → Result Bool
unfolding is_word lstrip rstrip
resident_runtime show config =
    let runtime_mode = rstrip (lstrip (mode_text show (get "runtime_mode" config))) in
    if is_word runtime_mode "resident"
    then ok true
    else if is_word runtime_mode "mission"
    then ok false
    else raise ErrorClass.runtime_error "invalid runtime_mode"
