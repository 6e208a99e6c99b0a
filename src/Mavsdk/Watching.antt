-- ===== src/Mavsdk/Watching.antt =====
-- The watched streams and the main thread keep what `Guarded` asks for.
use mpfc.Prelude.{
  String, inl, inr, true, ◌&&◌, some, nat_equality, string_equality, pair_equality, ◌==◌,
  Bool-cases,
}
use mpfc.Exec.{ok, Result-cases}
use mpfc.Json.{Value, get_item}
use mpfc.Mavsdk.{Gnss, Settings, MavsdkInterface, done}
use mpfc.Mavsdk.Telemetry.{
  Sample, valid_of, ready_of, publish_raw_readiness, watch_health, watch_status_text,
  watch_position, watch_attitude, watch_gnss, watch_flight_mode, watch, on_message,
}
use mpfc.Mavsdk.Guards.{
  Tracks, Guarded, if-Guarded, publish_model-Guarded, publish_flight_control-Guarded,
}

module _ (s : Settings) where
  raw_readiness-Guarded : (g : MavsdkInterface) → Tracks g → Guarded s (publish_raw_readiness s g)
  unfolding publish_raw_readiness
  raw_readiness-Guarded g t =
      publish_flight_control-Guarded s
        (λ f. record f { readiness = g.readiness; navigation_validity = g.nav_validity }) g t

  gnss-Guarded :
      (updates : Gnss → Gnss) (g : MavsdkInterface) → Tracks g → Guarded s (watch_gnss s updates g)
  unfolding watch_gnss
  gnss-Guarded updates g t =
      publish_model-Guarded s "gnss" (s.readers.pack_gnss (updates g.gnss_state))
        (record g { gnss_state = updates g.gnss_state }) t

  pub watch-Guarded : (x : Sample) (g : MavsdkInterface) → Tracks g → Guarded s (watch s x g)
  unfolding watch watch_health watch_status_text watch_position watch_attitude watch_flight_mode
  watch-Guarded (Sample.in_air b) g t =
      publish_flight_control-Guarded s (λ f. record f { in_air = some b }) g t
  watch-Guarded (Sample.armed b) g t =
      publish_flight_control-Guarded s (λ f. record f { armed = some b }) g t
  watch-Guarded (Sample.health h) g t =
      raw_readiness-Guarded
        (record g { nav_validity = valid_of h; readiness = ready_of h g.readiness }) t
  watch-Guarded (Sample.status_text uses_gps) g t =
      let g' = record g { readiness = record g.readiness { ekf_using_gps = true } } in
      if-Guarded s (s.is_ardupilot && uses_gps) (publish_raw_readiness s g') (done (ok tt) g)
        (λ gps. raw_readiness-Guarded g' t) (λ other. t)
  watch-Guarded (Sample.position absolute relative location) g t =
      publish_model-Guarded s "location" (location g.nav_validity)
        (record g { last_abs_alt_m = some absolute; last_rel_alt_m = some relative }) t
  watch-Guarded (Sample.attitude_euler v) g t =
      publish_model-Guarded s "attitude" v (record g { last_attitude = some v }) t
  watch-Guarded (Sample.angular_velocity v) g t = publish_model-Guarded s "angular_velocity" v g t
  watch-Guarded (Sample.battery v) g t = publish_model-Guarded s "power" v g t
  watch-Guarded (Sample.imu v) g t = publish_model-Guarded s "imu" v g t
  watch-Guarded (Sample.gps_info fix n) g t =
      gnss-Guarded (λ f. record f { fix_type = some fix; satellites_used = some n }) g t
  watch-Guarded (Sample.raw_gps v) g t = gnss-Guarded (λ f. record f { raw = some v }) g t
  watch-Guarded (Sample.flight_mode name standard) g t =
      let readiness = record g.readiness { mode_name = some name } in
      publish_flight_control-Guarded s
        (λ f. record f { standard_mode = standard; readiness = readiness })
        (record g { readiness = readiness }) t

  pub on_message-Guarded :
      (topic : String) (payload : Value) (g : MavsdkInterface)
      → Tracks g
      → Guarded s (on_message s topic payload g)
  unfolding on_message
  on_message-Guarded topic payload g t = elim (Bool-cases (topic == s.request_topic)) [
    | inl asked ↦ rw asked (elim (Result-cases (get_item "data" payload)) [
      | inl (e, f) ↦ rw (f, on_message) t
      | inr (body, f) ↦ rw (f, on_message) t
    ])
    | inr other ↦ rw other (elim (Bool-cases (topic == s.input_topic)) [
      | inl steered ↦ rw steered (elim (Result-cases (get_item "data" payload)) [
        | inl (e, f) ↦ rw (f, on_message) t
        | inr (body, f) ↦ rw (f, on_message) t
      ])
      | inr unknown ↦ rw unknown t
    ])
  ]
