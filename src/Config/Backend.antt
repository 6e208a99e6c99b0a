-- ===== src/Config/Backend.antt =====
-- main.py: `plugin_supports_vehicle` and `configure_runtime_plugins`, which choose the backend of the
-- controller and the interface of the core. A field is `none` where the dictionary has no such key; a
-- plugin without a `cfg` is one whose `cfg` is empty.
use mpfc.Prelude.{
  String, Bool, true, false, ◌&&◌, Option, none, some, List, [], ◌∷◌, nat_equality, string_equality,
  pair_equality, ◌==◌, if◌then◌else◌, is_some, any, keep,
}
use mpfc.Exec.{ErrorClass, Result, ok, ◌>>=◌, raise, or_raise}

-- The names that `resolve_enum_value` leaves in the configuration.
pub record Vehicle : Type 0 where
  pub autopilot : String
  pub airframe : String
  pub telem_type : String

pub record Supports : Type 0 where
  pub autopilot : List String
  pub telem_type : List String

pub record Endpoint : Type 0 where
  pub id : String
  pub topic_ns : String

pub record Plugin : Type 0 where
  pub plugin : String
  pub is_controller : Bool
  pub is_interface : Bool
  pub id : Option String
  pub topic_ns : Option String
  pub supports : Option Supports
  pub state_intervals : Option (List String)
  pub event_keys : Option (List String)
  pub backend : Option Endpoint
  pub backend_state_keys : List String
  pub backend_event_keys : List String
  pub vehicle : Option Vehicle

pub record Config : Type 0 where
  pub plugins : List Plugin
  pub interface : Option Endpoint
  pub vehicle : Option Vehicle

abbrev pub among : String → List String → Bool
among x xs = any (λ y. y == x) xs

-- `plugin_supports_vehicle`
unfoldable pub plugin_supports_vehicle : Plugin → Vehicle → Bool
plugin_supports_vehicle p v = elim p.supports [
  | none ↦ false
  | some s ↦ among v.autopilot s.autopilot && among v.telem_type s.telem_type
]

abbrev pub same_text : Option String → Option String → Bool
same_text none none = true
same_text (some a) (some b) = a == b
same_text _ _ = false

abbrev pub endpoint_eq : Endpoint → Endpoint → Bool
endpoint_eq a b = a.id == b.id && a.topic_ns == b.topic_ns

-- `{"id": cfg["id"], "topic_ns": cfg["topic_ns"]}`
unfoldable pub endpoint_of : Plugin → Result Endpoint
endpoint_of p = do
  id ← or_raise p.id ErrorClass.key_error "id"
  topic_ns ← or_raise p.topic_ns ErrorClass.key_error "topic_ns"
  ok (record { id = id; topic_ns = topic_ns })

abbrev pub controllers : List Plugin → List Plugin
controllers ps = keep (λ p. p.is_controller) ps

abbrev pub is_backend : String → Vehicle → Plugin → Bool
is_backend topic_ns v p =
    p.is_interface && same_text p.topic_ns (some topic_ns) && plugin_supports_vehicle p v

-- The first controller's `cfg` is the one that is written to.
unfoldable pub set_controller : (Plugin → Plugin) → List Plugin → List Plugin
set_controller f [] = []
set_controller f (p ∷ ps) =
    let rest = set_controller f ps in if p.is_controller then f p ∷ ps else p ∷ rest

abbrev pub connect : Endpoint → List String → List String → Vehicle → Plugin → Plugin
connect backend state_keys event_keys v p = record p {
  backend = some backend;
  backend_state_keys = state_keys;
  backend_event_keys = event_keys;
  vehicle = some v;
}

abbrev pub default : List String → Option (List String) → List String
default d none = d
default d (some xs) = xs

-- The core's interface may be given, but only as the controller's endpoint.
unfoldable pub choose_interface : Endpoint → Config → Result Config
choose_interface expected c = elim c.interface [
  | none ↦ ok (record c { interface = some expected })
  | some actual ↦
      if endpoint_eq actual expected
      then ok (record c { interface = some expected })
      else raise ErrorClass.runtime_error "core interface must target controller"
]

-- The one plugin of a list, or the error.
abbrev pub the_one : List Plugin → Result Plugin
the_one (p ∷ []) = ok p
the_one _ = raise ErrorClass.runtime_error "expected exactly one backend interface match"

-- The only plugin that fits. The controller's `topic_ns` is read for each interface plugin, and so is
-- missed only where there is one.
unfoldable pub find_backend : Plugin → Vehicle → List Plugin → Result Plugin
find_backend controller v ps = elim controller.topic_ns [
  | some topic_ns ↦ the_one (keep (is_backend topic_ns v) ps)
  | none ↦
      if any (λ p. p.is_interface) ps then raise ErrorClass.key_error "topic_ns" else the_one []
]

-- The branch of `configure_runtime_plugins` for a configuration with a controller.
unfoldable pub configure_controller : Plugin → Vehicle → Config → Result Config
unfolding endpoint_of choose_interface set_controller find_backend
configure_controller controller v c = do
  backend ← find_backend controller v c.plugins
  endpoint ← endpoint_of backend
  state_keys ← or_raise backend.state_intervals ErrorClass.key_error "state_intervals"
  expected ← endpoint_of controller
  choose_interface expected (record c {
    plugins =
        set_controller (connect endpoint state_keys (default [] backend.event_keys) v) c.plugins;
  })

abbrev pub is_candidate : Option Vehicle → Plugin → Bool
is_candidate none p = p.is_interface
is_candidate (some v) p = p.is_interface && plugin_supports_vehicle p v

-- The branch without a controller, where the core has no interface yet.
unfoldable pub configure_interface : Option Vehicle → List Plugin → Config → Result Config
unfolding endpoint_of
configure_interface vehicle (p ∷ []) c = do
  endpoint ← endpoint_of p
  ok (record c { interface = some endpoint })
configure_interface vehicle (p ∷ q ∷ ps) c =
    raise ErrorClass.runtime_error "multiple interface plugins require explicit core.cfg.interface"
configure_interface none [] c = ok c
configure_interface (some v) [] c =
    raise ErrorClass.runtime_error "no interface plugin supports the vehicle"

abbrev pub set_vehicle : Option Vehicle → Config → Config
set_vehicle none c = c
set_vehicle (some v) c = record c { vehicle = some v }

-- `configure_runtime_plugins`
unfoldable pub configure_runtime_plugins : Config → Option Vehicle → Result Config
unfolding configure_controller configure_interface
configure_runtime_plugins config vehicle =
    let c = set_vehicle vehicle config in
    elim (controllers c.plugins) [
      | [] ↦
          if is_some c.interface
          then ok c
          else configure_interface vehicle (keep (is_candidate vehicle) c.plugins) c
      | controller ∷ more ↦ elim more [
        | _ ∷ _ ↦ raise ErrorClass.runtime_error "multiple controller plugins configured"
        | [] ↦ elim vehicle [
          | none ↦ raise ErrorClass.runtime_error "vehicle config required when is_controller=true"
          | some v ↦ configure_controller controller v c
        ]
      ]
    ]
