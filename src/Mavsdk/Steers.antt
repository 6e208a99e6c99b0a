-- ===== src/Mavsdk/Steers.antt =====
-- The coroutines that steer keep what `Guarded` asks for.
use mpfc.Prelude.{
  ℕ, ◌≤◌, String, ◌≡◌, refl, inl, inr, true, Option, none, some, List, [], ◌∷◌, arith, nat_equality,
  string_equality, pair_equality, if◌then◌else◌, Bool-cases,
}
use mpfc.Exec.{Error, Result, ok, err, Result-cases}
use mpfc.Prelude.Int.{ℤ, pos, negsuc}
use mpfc.Json.{Value}
use mpfc.Occid.{InputFamily, input_name, decode_occid_input}
use mpfc.Msp.Telemetry.{ControlAxes}
use mpfc.Mavsdk.{Call, Settings, MavsdkInterface, done, await, go_on, call, change}
use mpfc.Mavsdk.Commands.{handle_command, publish_flight_control, direct_control_attitude}
use mpfc.Mavsdk.Inputs.{
  is_rejected, reject_input, rejected_model, serve_input, process_requests, process_inputs,
  serve_next_request, serve_next_input, to_float, start_altitude_control, publish_sample,
  send_sample, manual_control_turn,
}
use mpfc.Mavsdk.Direct.{
  merge_override, is_mode, override_is_fresh, mavsdk_manual_throttle, start_offboard, take_setpoint,
  keep_sample, publish_output, take_override, handle_input,
}
use mpfc.Mavsdk.Tasks.{answered}
use mpfc.Mavsdk.Guards.{
  answered-Tracks, Tracks, Guarded, go_on-Guarded, handle-Guarded, call-Guarded, if-Guarded,
  publish_model-Guarded, publish_flight_control-Guarded,
}
use mpfc.Mavsdk.Permits.{lift-Guarded, handle_command-Guarded}

throttle_bounded : (v : ℤ) (n : ℕ) → mavsdk_manual_throttle v ≡ ok n → n ≤ 2000
unfolding mavsdk_manual_throttle
throttle_bounded (pos m) n h = ground (arith, h)
throttle_bounded (negsuc m) n h = ground (arith, h)

module _ (s : Settings) where
  started-Guarded :
      (r : Result (Unit {0})) (h : MavsdkInterface)
      → Tracks h
      → Guarded s (
          go_on
            (λ _. change (λ g. record g { offboard_attitude_started = true }))
            (done r (answered Call.start_offboard r h)))
  unfolding go_on
  started-Guarded (ok _) h t = refl
  started-Guarded (err e) h t = t

  start_offboard-Guarded :
      (g : MavsdkInterface) (fields : Value) (rest : List Call)
      → g.completed ≡ Call.set_attitude fields ∷ rest
      → Tracks g
      → Guarded s (start_offboard g)
  unfolding start_offboard
  start_offboard-Guarded g fields rest before t =
      if-Guarded s g.offboard_attitude_started (done (ok tt) g)
        (go_on (λ _. change (λ g. record g { offboard_attitude_started = true }))
          (call Call.start_offboard g))
        (λ started. t) (λ still. ((still, (fields, rest, before)), t, started-Guarded))

  set_attitude-Guarded :
      (body fields : Value) (r : Result (Unit {0})) (h : MavsdkInterface)
      → Tracks h
      → Guarded s (
          go_on
            (λ _ g.
              go_on
                (λ _.
                  publish_flight_control s
                    (λ f. record f { attitude_setpoint = some body; override_active = some true }))
                (start_offboard g))
            (done r (answered (Call.set_attitude fields) r h)))
  unfolding go_on
  set_attitude-Guarded body fields (ok _) h t =
      let h' = record h { completed = Call.set_attitude fields ∷ h.completed } in
      go_on-Guarded s _ (start_offboard h') (start_offboard-Guarded h' fields h.completed refl t)
        (λ a k t'. publish_flight_control-Guarded s _ k t')
  set_attitude-Guarded body fields (err e) h t = t

  keep_sample-Guarded :
      (body : Value) (g : MavsdkInterface) → Tracks g → Guarded s (keep_sample s body g)
  unfolding keep_sample
  keep_sample-Guarded body g t =
      elim (Result-cases (merge_override g.control_output (s.readers.override body))) [
        | inl (e, f) ↦ rw (f, keep_sample) t
        | inr (output, f) ↦ rw (f, keep_sample) t
      ]

  start_altitude_control-Guarded :
      (g : MavsdkInterface) → Tracks g → Guarded s (start_altitude_control g)
  unfolding start_altitude_control
  start_altitude_control-Guarded g t =
      if-Guarded s g.manual_control_started (done (ok tt) g)
        (go_on (λ _. change (λ g. record g { manual_control_started = true }))
          (call Call.start_altitude_control g))
        (λ started. t)
        (λ still.
          go_on-Guarded s _ (call Call.start_altitude_control g)
            (call-Guarded s Call.start_altitude_control g still (λ cs. refl) t) (λ a h t'. t'))

  take_setpoint-Guarded :
      (body : Value) (g : MavsdkInterface) → Tracks g → Guarded s (take_setpoint s body g)
  unfolding take_setpoint
  take_setpoint-Guarded body g t =
      elim (Bool-cases (is_mode direct_control_attitude g.direct_control_mode)) [
        | inl active ↦
            rw (active, take_setpoint)
              (elim (Result-cases (s.readers.attitude_setpoint_to_fields body)) [
                | inl (e, f) ↦ rw (f, take_setpoint) t
                | inr (fields, f) ↦
                    rw (f, take_setpoint) (active, t, set_attitude-Guarded body fields)
              ])
        | inr other ↦ rw (other, take_setpoint) t
      ]

  take_override-Guarded :
      (body : Value) (g : MavsdkInterface) → Tracks g → Guarded s (take_override s body g)
  unfolding take_override publish_output
  take_override-Guarded body g t = elim (Bool-cases (is_mode "MANUAL_AXIS" g.direct_control_mode)) [
    | inl active ↦
        rw (active, take_override)
          (go_on-Guarded s _ _ (keep_sample-Guarded body g t) (λ a h t'.
            go_on-Guarded s _ _ (publish_model-Guarded s "control_override" body h t') (λ a h t'.
              go_on-Guarded s _ _
                (publish_model-Guarded s "control_output"
                  (s.readers.pack_control_axes h.control_output) h t')
                (λ a h t'.
                  publish_flight_control-Guarded s (λ f. record f { override_active = some true }) h
                    t'))))
    | inr other ↦ rw (other, take_override) t
  ]

  handle_input-Guarded :
      (f : InputFamily) (body : Value) (g : MavsdkInterface)
      → Tracks g
      → Guarded s (handle_input s f body g)
  unfolding handle_input
  handle_input-Guarded InputFamily.control_attitude_setpoint body g t =
      take_setpoint-Guarded body g t
  handle_input-Guarded InputFamily.control_override body g t = take_override-Guarded body g t
  handle_input-Guarded (InputFamily.other_input name) body g t = t

  reject_input-Guarded :
      (model : String) (e : Error) (g : MavsdkInterface)
      → Tracks g
      → Guarded s (reject_input model e g)
  unfolding reject_input
  reject_input-Guarded model e g t = elim (Bool-cases (is_rejected e)) [
    | inl caught ↦ rw caught t
    | inr other ↦ rw other t
  ]

  serve_input-Guarded :
      (payload : Value) (g : MavsdkInterface) → Tracks g → Guarded s (serve_input s payload g)
  unfolding serve_input
  serve_input-Guarded payload g t = elim (Result-cases (decode_occid_input s.codec payload)) [
    | inl (e, f) ↦
        rw (f, serve_input) (reject_input-Guarded (rejected_model g.last_model payload) e g t)
    | inr (i, f) ↦
        rw (f, serve_input)
          (handle-Guarded s (reject_input (input_name i.family)) _
            (handle_input-Guarded i.family i.body
              (record g { last_model = some (input_name i.family) }) t)
            (reject_input-Guarded (input_name i.family)))
  ]

  serve_next_request-Guarded :
      (r : Result (Unit {0})) (g : MavsdkInterface)
      → Tracks g
      → Guarded s (serve_next_request s r g)
  unfolding serve_next_request
  serve_next_request-Guarded (err e) g t = t
  serve_next_request-Guarded (ok _) g t = go g.request_queue
    where
      go :
          (waiting : List Value)
          → Guarded s (elim waiting [
            | [] ↦ done (ok tt) g
            | request ∷ rest ↦ handle_command s request (record g { request_queue = rest })
          ])
      go [] = t
      go (request ∷ rest) = handle_command-Guarded s request (record g { request_queue = rest }) t

  pub process_requests-Guarded : (g : MavsdkInterface) → Tracks g → Guarded s (process_requests s g)
  unfolding process_requests
  process_requests-Guarded g t =
      if-Guarded s g.stop_event (done (ok tt) g) (await Call.wait_request g (serve_next_request s))
        (λ stopped. t)
        (λ on. (
          tt,
          t,
          λ r h t'.
              serve_next_request-Guarded r (answered Call.wait_request r h)
                (answered-Tracks Call.wait_request (λ cs. refl) r h t'),
        ))

  serve_next_input-Guarded :
      (r : Result (Unit {0})) (g : MavsdkInterface) → Tracks g → Guarded s (serve_next_input s r g)
  unfolding serve_next_input
  serve_next_input-Guarded (err e) g t = t
  serve_next_input-Guarded (ok _) g t = go g.input_queue
    where
      go :
          (waiting : List Value)
          → Guarded s (elim waiting [
            | [] ↦ done (ok tt) g
            | payload ∷ rest ↦ serve_input s payload (record g { input_queue = rest })
          ])
      go [] = t
      go (payload ∷ rest) = serve_input-Guarded payload (record g { input_queue = rest }) t

  pub process_inputs-Guarded : (g : MavsdkInterface) → Tracks g → Guarded s (process_inputs s g)
  unfolding process_inputs
  process_inputs-Guarded g t =
      if-Guarded s g.stop_event (done (ok tt) g) (await Call.wait_input g (serve_next_input s))
        (λ stopped. t)
        (λ on. (
          tt,
          t,
          λ r h t'.
              serve_next_input-Guarded r (answered Call.wait_input r h)
                (answered-Tracks Call.wait_input (λ cs. refl) r h t'),
        ))

  publish_sample-Guarded :
      (sample : Option Value) (g : MavsdkInterface) → Tracks g → Guarded s (publish_sample sample g)
  publish_sample-Guarded none g t = t
  publish_sample-Guarded (some body) g t = publish_model-Guarded s "control_override" body g t

  send_sample-Guarded :
      (output : ControlAxes) (sample : Option Value) (g : MavsdkInterface)
      → Tracks g
      → override_is_fresh s g ≡ true
      → Guarded s (send_sample s output sample g)
  unfolding send_sample
  send_sample-Guarded output sample g t fresh =
      lift-Guarded s (to_float output.pitch) _ g t (λ pitch.
        lift-Guarded s (to_float output.roll) _ g t (λ roll.
          lift-Guarded s (to_float output.throttle) _ g t (λ signed.
            elim (Result-cases (mavsdk_manual_throttle signed)) [
              | inl (e, f) ↦ rw (f, send_sample) t
              | inr (throttle, f) ↦
                  rw (f, send_sample)
                    (lift-Guarded s (to_float output.yaw) _ g t (λ yaw.
                      go_on-Guarded s _
                        (call (Call.set_manual_control_input pitch roll throttle yaw) g)
                        (call-Guarded s (Call.set_manual_control_input pitch roll throttle yaw) g
                          (fresh, throttle_bounded signed throttle f) (λ cs. refl) t)
                        (λ a h t'.
                          go_on-Guarded s _ _ (start_altitude_control-Guarded h t') (λ a h t'.
                            go_on-Guarded s _ _ (publish_sample-Guarded sample h t') (λ a h t'.
                              publish_model-Guarded s "control_output"
                                (s.readers.pack_control_axes output) h t')))))
            ])))

  pub manual_control_turn-Guarded :
      (g : MavsdkInterface) → Tracks g → Guarded s (manual_control_turn s g)
  unfolding manual_control_turn
  manual_control_turn-Guarded g t =
      let sent = send_sample s g.control_output g.control_override g in
      if-Guarded s g.stop_event (done (ok tt) g)
        (if override_is_fresh s g then sent else done (ok tt) g) (λ stopped. t)
        (λ on.
          if-Guarded s (override_is_fresh s g) sent (done (ok tt) g)
            (λ fresh. send_sample-Guarded g.control_output g.control_override g t fresh)
            (λ stale. t))
