-- ===== src/Mavsdk/Telemetry.antt =====
-- The streams of the vehicle that the adapter watches, and what its main thread does with a message.
-- A value that OCCID's conversions make of a sample alone is part of the sample.
use mpfc.Prelude.{
  ℕ, String, Bool, true, ◌&&◌, Option, some, [], ◌∷◌, ◌++◌, nat_equality, string_equality,
  pair_equality, ◌==◌, if◌then◌else◌,
}
use mpfc.Exec.{ok, err}
use mpfc.Prelude.Int.{ℤ}
use mpfc.Json.{Value, get_item}
use mpfc.Mavsdk.{Readiness, Validity, Gnss, Settings, done, Act}
use mpfc.Mavsdk.Commands.{publish_model, publish_flight_control}

-- The health of a vehicle.
pub record Health : Type 0 where
  pub gyrometer_calibration_ok : Bool
  pub accelerometer_calibration_ok : Bool
  pub magnetometer_calibration_ok : Bool
  pub local_position_ok : Bool
  pub global_position_ok : Bool
  pub home_position_ok : Bool
  pub armable : Bool

-- What a stream brings. `status_text` tells whether the text holds " is using GPS"; a location is
-- made of the position and of the validity that the adapter holds.
pub data Sample : Type 0 where
  in_air armed : Bool → Sample
  health : Health → Sample
  status_text : Bool → Sample
  position : ℤ → ℤ → (Validity → Value) → Sample
  attitude_euler angular_velocity battery imu : Value → Sample
  gps_info : Value → ℕ → Sample
  raw_gps : Value → Sample
  flight_mode : String → Option Value → Sample

abbrev pub valid_of : Health → Validity
valid_of h = record {
  local_position_ok = h.local_position_ok;
  global_position_ok = h.global_position_ok;
  home_position_ok = h.home_position_ok;
}

abbrev pub ready_of : Health → Readiness → Readiness
ready_of h r = record r {
  gyro_ok = h.gyrometer_calibration_ok;
  accel_ok = h.accelerometer_calibration_ok;
  mag_ok = h.magnetometer_calibration_ok;
  local_position_ok = h.local_position_ok;
  global_position_ok = h.global_position_ok;
  home_position_ok = h.home_position_ok;
  armable = h.armable;
  can_arm_or_run = h.armable;
}

-- `_publish_raw_readiness`
unfoldable pub publish_raw_readiness : Settings → Act (Unit {0})
unfolding publish_flight_control
publish_raw_readiness s g =
    publish_flight_control s
      (λ f. record f { readiness = g.readiness; navigation_validity = g.nav_validity }) g

-- `_watch_health`
unfoldable pub watch_health : Settings → Health → Act (Unit {0})
unfolding publish_raw_readiness
watch_health s h g =
    publish_raw_readiness s
      (record g { nav_validity = valid_of h; readiness = ready_of h g.readiness })

-- `_watch_status_text`
unfoldable pub watch_status_text : Settings → Bool → Act (Unit {0})
unfolding publish_raw_readiness
watch_status_text s uses_gps g =
    if s.is_ardupilot && uses_gps
    then publish_raw_readiness s
        (record g { readiness = record g.readiness { ekf_using_gps = true } })
    else done (ok tt) g

-- `_watch_position`
unfoldable pub watch_position : ℤ → ℤ → (Validity → Value) → Act (Unit {0})
unfolding publish_model
watch_position absolute relative location g =
    publish_model "location" (location g.nav_validity)
      (record g { last_abs_alt_m = some absolute; last_rel_alt_m = some relative })

-- `_watch_attitude`
unfoldable pub watch_attitude : Value → Act (Unit {0})
unfolding publish_model
watch_attitude attitude g =
    publish_model "attitude" attitude (record g { last_attitude = some attitude })

-- `_watch_gps_info` and `_watch_raw_gps`, on what they change
unfoldable pub watch_gnss : Settings → (Gnss → Gnss) → Act (Unit {0})
unfolding publish_model
watch_gnss s updates g =
    let gnss = updates g.gnss_state in
    publish_model "gnss" (s.readers.pack_gnss gnss) (record g { gnss_state = gnss })

-- `_watch_flight_mode`
unfoldable pub watch_flight_mode : Settings → String → Option Value → Act (Unit {0})
unfolding publish_flight_control
watch_flight_mode s name standard g =
    let readiness = record g.readiness { mode_name = some name } in
    publish_flight_control s (λ f. record f { standard_mode = standard; readiness = readiness })
      (record g { readiness = readiness })

-- A turn of the task that watches a sample's stream.
unfoldable pub watch : Settings → Sample → Act (Unit {0})
unfolding publish_flight_control watch_health watch_status_text watch_position watch_attitude
    watch_gnss watch_flight_mode publish_model
watch s (in_air b) = publish_flight_control s (λ f. record f { in_air = some b })
watch s (armed b) = publish_flight_control s (λ f. record f { armed = some b })
watch s (health h) = watch_health s h
watch s (status_text uses_gps) = watch_status_text s uses_gps
watch s (position absolute relative location) = watch_position absolute relative location
watch s (attitude_euler v) = watch_attitude v
watch s (angular_velocity v) = publish_model "angular_velocity" v
watch s (battery v) = publish_model "power" v
watch s (imu v) = publish_model "imu" v
watch s (gps_info fix n) =
    watch_gnss s (λ f. record f { fix_type = some fix; satellites_used = some n })
watch s (raw_gps v) = watch_gnss s (λ f. record f { raw = some v })
watch s (flight_mode name standard) = watch_flight_mode s name standard

-- What `run` does with a message.
unfoldable pub on_message : Settings → String → Value → Act (Unit {0})
on_message s topic payload g =
    if topic == s.request_topic
    then elim (get_item "data" payload) [
      | err e ↦ done (err e) g
      | ok body ↦ done (ok tt) (record g { request_queue = g.request_queue ++ body ∷ [] })
    ]
    else if topic == s.input_topic
    then elim (get_item "data" payload) [
      | err e ↦ done (err e) g
      | ok body ↦ done (ok tt) (record g { input_queue = g.input_queue ++ body ∷ [] })
    ]
    else done (ok tt) g
