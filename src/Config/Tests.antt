-- ===== src/Config/Tests.antt =====
-- Concrete configurations, templates and command lines.
use mpfc.Prelude.{
  String, ◌≡◌, refl, ◌≢◌, true, false, none, some, [], ◌∷◌, arith, nat_equality, string_equality,
  pair_equality, length, All,
}
use mpfc.Dict.{insert}
use mpfc.Exec.{ok}
use mpfc.Prelude.Int.{pos, negsuc}
use mpfc.Json.{Value, Fields, str, list, nil, cons, dict, end, field, get, put}
use mpfc.Config.Apply.{Readers, Target, open_target, apply_overrides}
use mpfc.Config.Kinds.{apply_overrides-KeepsKind, apply_overrides_lost}
use mpfc.Config.Casting.{KeepsKind}
use mpfc.Config.Templates.{apply_plugin_config_templates, resolve_plugin_supports}
use mpfc.Config.Prepared.{
  AllInherit, apply_plugin_config_templates-AllInherit, IsResolved,
  resolve_plugin_supports-IsResolved,
}
use mpfc.Config.Merge.{deep_merge_dict, merged, get-deep_merge_dict}
use mpfc.Config.Override.{
  IsKey, has_equals, parse_runtime_overrides, parse_runtime_overrides-argument,
}
use mpfc.Config.Backend.{
  Vehicle, Supports, Endpoint, Plugin, Config, controllers, endpoint_of, is_candidate,
  configure_runtime_plugins, configure_controller,
}
use mpfc.Config.Names.{EnumType, VehicleEnums, resolve_enum_value}
use mpfc.Config.Selection.{IsConnected, configure_runtime_plugins-IsConnected}

abbrev template : Fields
template =
    field "id" (str "a")
      (field "topics" (dict (field "in" (str "x") (field "out" (str "y") end))) end)

abbrev entry : Fields
entry = field "topics" (dict (field "out" (str "z") end)) end

get-deep_merge_dict_example :
    get "topics" (deep_merge_dict template entry)
    ≡ some (dict (field "in" (str "x") (field "out" (str "z") end)))
unfolding get mpfc.Config.Merge.merge_value mpfc.Json.put
get-deep_merge_dict_example = get-deep_merge_dict "topics" template entry (refl, tt)

alt-IsKey : IsKey "alt"
unfolding has_equals
alt-IsKey = (λ e. cc e, refl)

parse_runtime_overrides-argument_example :
    parse_runtime_overrides ("--alt=1=2" ∷ []) ≡ ok (("alt", "1=2") ∷ [])
unfolding insert
parse_runtime_overrides-argument_example =
    parse_runtime_overrides-argument (("alt", "1=2") ∷ []) (alt-IsKey, tt)

abbrev copter : Vehicle
copter = record { autopilot = "ARDUPILOT"; airframe = "QUAD"; telem_type = "MAVLINK" }

abbrev blank : Plugin
blank = record {
  plugin = "";
  is_controller = false;
  is_interface = false;
  id = none;
  topic_ns = some "UAV";
  supports = none;
  state_intervals = none;
  event_keys = none;
  backend = none;
  backend_state_keys = [];
  backend_event_keys = [];
  vehicle = none;
}

abbrev controller : Plugin
controller = record blank { plugin = "uav_controller"; is_controller = true; id = some "uav" }

abbrev mavsdk : Plugin
mavsdk = record blank {
  plugin = "mavsdk_interface";
  is_interface = true;
  id = some "mav";
  supports = some (record { autopilot = "ARDUPILOT" ∷ []; telem_type = "MAVLINK" ∷ [] });
  state_intervals = some ("location" ∷ []);
}

-- It is in the namespace and knows the autopilot, but not the telemetry.
abbrev msp : Plugin
msp = record mavsdk {
  plugin = "msp_interface";
  id = some "msp";
  supports = some (record { autopilot = "ARDUPILOT" ∷ []; telem_type = "MSP" ∷ [] });
}

abbrev config : Config
config = record { plugins = msp ∷ controller ∷ mavsdk ∷ []; interface = none; vehicle = none }

abbrev connected : Config
connected = record {
  plugins =
      msp
      ∷ record controller {
        backend = some (record { id = "mav"; topic_ns = "UAV" });
        backend_state_keys = "location" ∷ [];
        vehicle = some copter;
      }
      ∷ mavsdk
      ∷ [];
  interface = some (record { id = "uav"; topic_ns = "UAV" });
  vehicle = some copter;
}

some_controller : controllers config.plugins ≢ []
some_controller = λ e. ground (arith, e)

configure_runtime_plugins-IsConnected_example :
    (p : Plugin) × (v : Vehicle) × (controllers config.plugins ≡ p ∷ [])
    × (some copter ≡ some v)
    × IsConnected p v config connected
unfolding configure_runtime_plugins mpfc.Config.Backend.plugin_supports_vehicle
    mpfc.Config.Backend.find_backend
configure_runtime_plugins-IsConnected_example =
    configure_runtime_plugins-IsConnected config connected (some copter) some_controller refl

abbrev direct : Config
direct = record { plugins = mavsdk ∷ []; interface = none; vehicle = none }

abbrev directed : Config
directed = record direct {
  interface = some (record { id = "mav"; topic_ns = "UAV" });
  vehicle = some copter;
}

abbrev autopilots : EnumType
autopilots = record { name = "AutopilotType"; members = "PX4" ∷ "ARDUPILOT" ∷ [] }

abbrev readers : Readers
readers = record { read_float = λ raw. ok raw; loads = λ raw. ok (list nil) }

abbrev core_cfg : Fields
core_cfg =
    field "armed" (Value.bool false)
      (field "speed" (Value.int (pos 3)) (field "mission" (dict (field "alt" (str "10") end)) end))

abbrev overridden : Target
overridden = record (open_target (some (str "uav")) core_cfg) {
  core_cfg = field "armed" (Value.bool true) (
      field "speed" (Value.int (negsuc 6))
        (field "mission" (dict (field "alt" (str "12") end)) end));
  mission = some (field "alt" (str "12") end);
}

apply_overrides-KeepsKind_example :
    KeepsKind (get "speed" core_cfg) (get "speed" overridden.core_cfg)
unfolding apply_overrides mpfc.Config.Apply.cast_override_value get mpfc.Json.put
    mpfc.Config.Names.rstrip mpfc.Config.Names.lstrip
apply_overrides-KeepsKind_example =
    apply_overrides-KeepsKind readers (("armed", "Yes") ∷ ("speed", " -7 ") ∷ ("alt", "12") ∷ [])
      (open_target (some (str "uav")) core_cfg) overridden "speed" (λ e. cc e) refl

apply_overrides_lost_example :
    (c' : Target) × (apply_overrides readers
        (("mission", "[]") ∷ ("alt", "12") ∷ [])
        (open_target none core_cfg)
      ≡ ok c')
    × (c'.core_cfg ≡ put "mission" (list nil) core_cfg)
unfolding mpfc.Config.Apply.cast_override_value get
apply_overrides_lost_example =
    apply_overrides_lost readers "[]" "12" "alt" (open_target none core_cfg)
      (field "alt" (str "10") end) (list nil) (str "10") (str "12") refl refl (λ e. cc e)
      (λ e. cc e) refl refl refl refl

abbrev plugin_entry : Fields
plugin_entry =
    field "plugin" (str "msp")
      (field "cfg" (dict (field "topics" (dict (field "out" (str "z") end)) end)) end)

abbrev plugin_template : Fields
plugin_template =
    field "plugin" (str "msp")
      (field "_notes" (str "n") (field "cfg" (dict (field "id" (str "a") end)) end))

abbrev merged_entry : Fields
merged_entry = field "plugin" (str "msp") (
    field "cfg"
      (dict (field "id" (str "a") (field "topics" (dict (field "out" (str "z") end)) end))) end)

apply_plugin_config_templates-AllInherit_example :
    AllInherit (λ _. ok plugin_template) (plugin_entry ∷ []) (merged_entry ∷ [])
unfolding apply_plugin_config_templates get mpfc.Json.put mpfc.Config.Merge.deep_merge_dict
apply_plugin_config_templates-AllInherit_example =
    apply_plugin_config_templates-AllInherit (λ _. ok plugin_template) (plugin_entry ∷ [])
      (merged_entry ∷ []) ((refl, (refl, tt)), tt) refl

abbrev enums : VehicleEnums
enums = record {
  autopilot = record { name = "AutopilotType"; members = "INAV" ∷ [] };
  airframe = record { name = "AirframeType"; members = "QUAD" ∷ [] };
  telemetry = record { name = "TelemetryType"; members = "MSP" ∷ [] };
}

abbrev supports_of : String → String → Fields
supports_of autopilot telemetry =
    field "supports"
      (dict (
        field "autopilot" (list (cons (str autopilot) nil))
          (field "telem_type" (list (cons (str telemetry) nil)) end)))
      end

resolve_plugin_supports-IsResolved_example :
    (length {A = Fields} (supports_of "INAV" "MSP" ∷ end ∷ []) ≡ 2)
    × All (λ cfg. IsResolved enums (get "supports" cfg)) (supports_of "INAV" "MSP" ∷ end ∷ [])
unfolding resolve_plugin_supports get mpfc.Json.put mpfc.Config.Names.resolve_enum_list
    mpfc.Config.Names.resolve_enum_value
resolve_plugin_supports-IsResolved_example =
    resolve_plugin_supports-IsResolved enums (supports_of "AutopilotType.INAV" "MSP " ∷ end ∷ [])
      (supports_of "INAV" "MSP" ∷ end ∷ []) refl
