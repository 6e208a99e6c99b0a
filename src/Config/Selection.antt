-- ===== src/Config/Selection.antt =====
-- Which backend and which interface `configure_runtime_plugins` chooses.
use mathlib.Core.Option.{some-injective}
use mpfc.Prelude.{
  String, ◌≡◌, refl, sym, ap, ◌∙◌, ◌≢◌, ◌⊎◌, inl, inr, Option, none, some, List, [], ◌∷◌, arith,
  nat_equality, string_equality, pair_equality, All, ◌++◌,
}
use mpfc.Exec.{ErrorClass, or_raise, >>=-eq-ok, ok}
use mpfc.Config.Choosing.{Fits, keep-IsOnly, is_backend-Fits, All-not_Fits, set_controller-only}
use mpfc.Config.Backend.{
  Vehicle, Endpoint, Plugin, Config, endpoint_of, find_backend, controllers, is_backend,
  set_controller, connect, default, configure_controller, configure_runtime_plugins,
}
use mpfc.Config.Endpoints.{
  Chooses, choose_interface-Chooses, find_backend-eq, or_raise-eq, endpoint_of-eq, default-cases,
}

-- A configuration in which the controller is connected to its backend, and the core to the controller.
pub record IsConnected (controller : Plugin) (v : Vehicle) (before after : Config) : Type 0 where
  -- The names that the endpoints are made of.
  pub namespace : String
  pub controller_id : String
  pub backend_id : String
  pub controller_ns : controller.topic_ns ≡ some namespace
  pub controller_named : controller.id ≡ some controller_id
  -- The backend is the only plugin that fits.
  pub backend : Plugin
  pub above : List Plugin
  pub below : List Plugin
  pub there : before.plugins ≡ above ++ backend ∷ below
  pub fits : Fits namespace v backend
  pub no_other_above : All (λ p. Fits namespace v p → ⊥) above
  pub no_other_below : All (λ p. Fits namespace v p → ⊥) below
  pub backend_named : backend.id ≡ some backend_id
  -- What the backend publishes.
  pub state_keys : List String
  pub event_keys : List String
  pub states : backend.state_intervals ≡ some state_keys
  pub events :
      (backend.event_keys ≡ some event_keys) ⊎ ((backend.event_keys ≡ none) × (event_keys ≡ []))
  -- Only the controller's entry changes, and it is told of the backend.
  pub front : List Plugin
  pub back : List Plugin
  pub controller_there : before.plugins ≡ front ++ controller ∷ back
  pub connects :
      after.plugins
      ≡ front
        ++ record controller {
          backend = some (record { id = backend_id; topic_ns = namespace });
          backend_state_keys = state_keys;
          backend_event_keys = event_keys;
          vehicle = some v;
        }
          ∷ back
  -- The core is told of the controller, and was told of nothing else.
  pub core_uses : after.interface ≡ some (record { id = controller_id; topic_ns = namespace })
  pub core_used :
      (before.interface ≡ none)
      ⊎ (before.interface ≡ some (record { id = controller_id; topic_ns = namespace }))
  pub core_vehicle : after.vehicle ≡ some v

-- The parts of `configure_controller` together.
parts-IsConnected :
    (controller backend : Plugin) (v : Vehicle) (c c' : Config) (endpoint expected : Endpoint)
    (keys : List String)
    → controllers c.plugins ≡ controller ∷ []
    → find_backend controller v c.plugins ≡ ok backend
    → endpoint_of backend ≡ ok endpoint
    → or_raise backend.state_intervals ErrorClass.key_error "state_intervals" ≡ ok keys
    → endpoint_of controller ≡ ok expected
    → Chooses expected
        (record c {
          plugins =
              set_controller (connect endpoint keys (default [] backend.event_keys) v) c.plugins;
          vehicle = some v;
        })
        c'
    → IsConnected controller v c c'
parts-IsConnected controller backend v c c' endpoint expected keys one found at has_keys here
      chosen =
    let (ns, ns_at, only) = find_backend-eq controller v c.plugins backend found in
    let (above, below, there, fit) = keep-IsOnly (is_backend ns v) backend c.plugins only in
    let (passes, none_above, none_below) = fit in
    let (front, back, controller_there, alone) =
      keep-IsOnly (λ p. p.is_controller) controller c.plugins one in
    let fits = is_backend-Fits ns v backend passes in
    let backend_is = endpoint_of-eq backend endpoint at in
    let controller_is = endpoint_of-eq controller expected here in
    let backend_ns = some-injective endpoint.topic_ns ns (sym backend_is.1 ∙ fits.2) in
    let controller_ns = some-injective expected.topic_ns ns (sym controller_is.1 ∙ ns_at) in
    let told = connect endpoint keys (default [] backend.event_keys) v in
    record {
      namespace = ns;
      controller_id = expected.id;
      backend_id = endpoint.id;
      controller_ns = ns_at;
      controller_named = controller_is.0;
      backend = backend;
      above = above;
      below = below;
      there = there;
      fits = fits;
      no_other_above = All-not_Fits ns v above none_above;
      no_other_below = All-not_Fits ns v below none_below;
      backend_named = backend_is.0;
      state_keys = keys;
      event_keys = default [] backend.event_keys;
      states = or_raise-eq backend.state_intervals "state_intervals" keys has_keys;
      events = default-cases backend.event_keys;
      front = front;
      back = back;
      controller_there = controller_there;
      connects =
          chosen.plugins
          ∙ ap (set_controller told) controller_there
          ∙ set_controller-only told controller front back alone
          ∙ ap
              (λ n.
                front
                ++ connect (record { id = endpoint.id; topic_ns = n }) keys
                    (default [] backend.event_keys) v controller
                  ∷ back)
              backend_ns;
      core_uses =
          chosen.interface
          ∙ ap (λ n. some (record { id = expected.id; topic_ns = n })) controller_ns;
      core_used = elim chosen.given [
        | inl unset ↦ inl unset
        | inr set ↦
            inr (set ∙ ap (λ n. some (record { id = expected.id; topic_ns = n })) controller_ns)
      ];
      core_vehicle = chosen.vehicle;
    }

configure_controller-IsConnected :
    (controller : Plugin) (v : Vehicle) (c c' : Config)
    → controllers c.plugins ≡ controller ∷ []
    → configure_controller controller v (record c { vehicle = some v }) ≡ ok c'
    → IsConnected controller v c c'
unfolding configure_controller
configure_controller-IsConnected controller v c c' one h =
    let (backend, found, h1) = >>=-eq-ok (find_backend controller v c.plugins) _ h in
    let (endpoint, at, h2) = >>=-eq-ok (endpoint_of backend) _ h1 in
    let (keys, has_keys, h3) =
      >>=-eq-ok (or_raise backend.state_intervals ErrorClass.key_error "state_intervals") _ h2 in
    let (expected, here, h4) = >>=-eq-ok (endpoint_of controller) _ h3 in
    parts-IsConnected controller backend v c c' endpoint expected keys one found at has_keys here
      (choose_interface-Chooses expected _ c' h4)

-- A configuration with a controller is only taken where there is one controller, a vehicle, and exactly
-- one interface plugin in the controller's namespace that supports the vehicle's autopilot and its
-- telemetry. Then the controller's entry gets that plugin's endpoint, state keys and event keys and the
-- vehicle, and no other entry changes; the core gets the controller's endpoint, where it names none or
-- that one, and the vehicle.
pub configure_runtime_plugins-IsConnected :
    (c c' : Config) (vehicle : Option Vehicle)
    → controllers c.plugins ≢ []
    → configure_runtime_plugins c vehicle ≡ ok c'
    → (controller : Plugin) × (v : Vehicle) × (controllers c.plugins ≡ controller ∷ [])
      × (vehicle ≡ some v)
      × IsConnected controller v c c'
unfolding configure_runtime_plugins
configure_runtime_plugins-IsConnected c c' none some_controller h =
    absurd (go (controllers c.plugins) refl)
  where
    go : (cs : List Plugin) → controllers c.plugins ≡ cs → ⊥
    go [] e = some_controller e
    go (p ∷ []) e = ground (arith, h, e)
    go (p ∷ q ∷ ps) e = ground (arith, h, e)
configure_runtime_plugins-IsConnected c c' (some v) some_controller h =
    go (controllers c.plugins) refl
  where
    go :
        (cs : List Plugin)
        → controllers c.plugins ≡ cs
        → (controller : Plugin) × (w : Vehicle) × (controllers c.plugins ≡ controller ∷ [])
          × (some v ≡ some w)
          × IsConnected controller w c c'
    go [] e = absurd (some_controller e)
    go (p ∷ []) e = (
      p,
      v,
      e,
      refl,
      configure_controller-IsConnected p v c c' e (rw (e, configure_runtime_plugins) at h),
    )
    go (p ∷ q ∷ ps) e = absurd (ground (arith, h, e))
