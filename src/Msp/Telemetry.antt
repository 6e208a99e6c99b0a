-- ===== src/Msp/Telemetry.antt =====
-- The state that the adapter publishes: `_refresh_state`. What the package's conversions give is part of
-- the reading; the decisions and the order of the publishing are the adapter's.
use mpfc.Semantics.{AuxChannel, ControlOverride}
use mpfc.Prelude.{
  ℕ, zero, suc, String, Bool, false, not, ◌&&◌, Option, none, some, List, [], ◌∷◌, ◌++◌,
  nat_equality, string_equality, pair_equality, leb, if◌then◌else◌, is_some,
}
use mpfc.Dict.{contains}
use mpfc.Exec.{Result, ok, ◌>>=◌}
use mpfc.Prelude.Int.{ℤ, pos, ltb_ℤ}
use mpfc.Json.{Value}
use mpfc.Scheduler.{StateScheduler, update}
use mpfc.Msp.{FlightControl, Settings, MspInterface}
use mpfc.Msp.Channels.{override_is_fresh}

-- Control axes, with the auxiliary channels in their order.
pub record ControlAxes : Type 0 where
  pub roll : Option ℤ
  pub pitch : Option ℤ
  pub yaw : Option ℤ
  pub throttle : Option ℤ
  pub aux : List ℤ

-- What the flight controller answers in a poll. The values are models that OCCID makes of the answers
-- alone; `location_altitude` is the relative altitude of the location among them.
pub record Reading : Type 0 where
  pub armed : Bool
  pub estimated_altitude : Option ℤ
  pub fix_3d : Bool
  pub num_sat : ℕ
  pub override_box : Bool
  pub failsafe_box : Bool
  pub runtime_load : Value
  pub location : Value
  pub location_altitude : Option ℤ
  pub gnss : Value
  pub autopilot_mission : Value
  pub sensor_config : Value
  pub attitude : Value
  pub angular_velocity : Value
  pub imu : Value
  pub power : Value
  pub rc : ControlAxes

-- How OCCID packs what the adapter decides.
pub record Packing : Type 0 where
  pub flight_control : FlightControl → Value
  pub control_axes : ControlAxes → Value
  pub control_override : ControlOverride → Value
  pub remote_control : ControlAxes → ControlAxes → Option ControlOverride → Value

-- `while len(aux) <= index: aux.append(0.0)`
unfoldable pub pad : ℕ → List ℤ → List ℤ
pad zero [] = pos 0 ∷ []
pad zero (x ∷ xs) = x ∷ xs
pad (suc n) [] = pos 0 ∷ pad n []
pad (suc n) (x ∷ xs) = x ∷ pad n xs

-- `aux[index] = value`, for an index in range
unfoldable pub assign_at : ℕ → ℤ → List ℤ → List ℤ
assign_at n v [] = []
assign_at zero v (x ∷ xs) = v ∷ xs
assign_at (suc n) v (x ∷ xs) = x ∷ assign_at n v xs

-- The loop of `_merge_override`.
unfoldable pub merge_aux : List AuxChannel → List ℤ → List ℤ
unfolding pad assign_at
merge_aux [] aux = aux
merge_aux (channel ∷ rest) aux =
    let padded = pad channel.channel_index aux in
    merge_aux rest
      (elim channel.value [ none ↦ padded | some v ↦ assign_at channel.channel_index v padded ])

abbrev or_base : Option ℤ → Option ℤ → Option ℤ
or_base none base = base
or_base (some v) base = some v

-- `_merge_override`
unfoldable pub merge_override : ControlAxes → ControlOverride → ControlAxes
unfolding merge_aux
merge_override base override = record {
  roll = or_base override.roll base.roll;
  pitch = or_base override.pitch base.pitch;
  yaw = or_base override.yaw base.yaw;
  throttle = or_base override.throttle base.throttle;
  aux = merge_aux override.aux base.aux;
}

abbrev at_least : ℤ → Option ℤ → Bool
at_least threshold none = false
at_least threshold (some altitude) = not (ltb_ℤ altitude threshold)

-- The flight control state of a reading.
unfoldable pub flight_control_of : Settings → Reading → FlightControl
flight_control_of s r =
    let global_ok = r.fix_3d && leb s.home_min_satellites r.num_sat in
    record {
      armed = r.armed;
      in_air = r.armed && at_least s.in_air_alt_threshold r.estimated_altitude;
      override_active = r.override_box;
      failsafe = r.failsafe_box;
      armable = not r.failsafe_box;
      local_position_ok = is_some r.estimated_altitude;
      global_position_ok = global_ok;
      home_position_ok = global_ok;
    }

-- `_publish_model`
unfoldable pub publish_model : String → Value → StateScheduler → Result StateScheduler
publish_model key model scheduler =
    if contains key scheduler.topics then update key model scheduler else ok scheduler

unfoldable pub publish_models : List (String × Value) → StateScheduler → Result StateScheduler
unfolding publish_model
publish_models [] scheduler = ok scheduler
publish_models ((key, model) ∷ rest) scheduler =
    publish_model key model scheduler >>= publish_models rest

-- What the vehicle is being told, as far as it is known.
unfoldable pub control_output : Settings → ℕ → ControlAxes → MspInterface → ControlAxes
unfolding merge_override override_is_fresh
control_output s now rc g = elim g.control_override [
  | none ↦ rc
  | some override ↦ if override_is_fresh s now g then merge_override rc override else rc
]

-- The models of a poll, in the order in which they are published.
unfoldable pub models_of : Settings → Packing → ℕ → Reading → MspInterface → List (String × Value)
unfolding flight_control_of control_output
models_of s p now r g =
    let output = control_output s now r.rc g in
    ("flight_control", p.flight_control (flight_control_of s r))
    ∷ ("runtime_load", r.runtime_load)
    ∷ ("location", r.location)
    ∷ ("gnss", r.gnss)
    ∷ ("autopilot_mission", r.autopilot_mission)
    ∷ ("sensor_config", r.sensor_config)
    ∷ ("attitude", r.attitude)
    ∷ ("angular_velocity", r.angular_velocity)
    ∷ ("imu", r.imu)
    ∷ ("power", r.power)
    ∷ ("rc_telemetry", p.control_axes r.rc)
    ∷ ((elim g.control_override [
      | none ↦ []
      | some override ↦ ("control_override", p.control_override override) ∷ []
    ])
        ++ ("control_output", p.control_axes output)
          ∷ ("remote_control", p.remote_control r.rc output g.control_override)
          ∷ [])

-- `_refresh_state`, behind the calls that read the flight controller.
unfoldable pub refresh_state : Settings → Packing → ℕ → Reading → MspInterface → Result MspInterface
unfolding models_of publish_models flight_control_of
refresh_state s p now r g =
    publish_models (models_of s p now r g) g.state_scheduler >>= λ scheduler. ok (record g {
      state_scheduler = scheduler;
      latest_flight_control = some (flight_control_of s r);
      latest_altitude = r.location_altitude;
    })
