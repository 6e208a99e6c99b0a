-- ===== src/Mavsdk/Inputs.antt =====
-- The turns of the adapter's three tasks: requests, inputs, manual control.
use mpfc.Prelude.{
  String, Bool, true, false, Option, none, some, [], ◌∷◌, nat_equality, string_equality,
  pair_equality, if◌then◌else◌,
}
use mpfc.Exec.{ErrorClass, Error, Result, ok, err, raise}
use mpfc.Prelude.Int.{ℤ}
use mpfc.Json.{Value, dict, end, field, str, build_envelope}
use mpfc.Occid.{input_name, decode_occid_input}
use mpfc.Runtime.{diag_topic, post}
use mpfc.Msp.Telemetry.{ControlAxes}
use mpfc.Msp.Loops.{type_name}
use mpfc.Mavsdk.{
  Call, Settings, MavsdkInterface, done, await, Act, go_on, ◌>>=◌, ◌>>◌, pure, lift, change, call,
  handle,
}
use mpfc.Mavsdk.Commands.{publish_model, handle_command}
use mpfc.Mavsdk.Direct.{override_is_fresh, mavsdk_manual_throttle, handle_input}

-- `_publish_input_rejected`, with the time of the envelope taken from the one clock.
unfoldable pub publish_input_rejected : String → String → MavsdkInterface → MavsdkInterface
publish_input_rejected model words g =
    let topic = diag_topic g.runtime.client_id "INPUT_REJECTED" in
    record g {
      runtime = record g.runtime {
        client =
            post topic
              (build_envelope g.runtime.client_id topic g.clock (
                dict (
                  field "event" (str "INPUT_REJECTED")
                    (field "model" (str model) (field "error" (str words) end)))))
              g.runtime.client;
      };
    }

-- `except (UnsupportedCommand, TypeError, ValueError, OffboardError)`
abbrev pub is_rejected : Error → Bool
is_rejected e = elim e.class [
  | ErrorClass.offboard_error ↦ true
  | ErrorClass.unsupported_command ↦ true
  | ErrorClass.value_error ↦ true
  | ErrorClass.type_error ↦ true
  | _ ↦ false
]

unfoldable pub reject_input : String → Error → Act (Unit {0})
unfolding publish_input_rejected
reject_input model e g =
    if is_rejected e then done (ok tt) (publish_input_rejected model e.text g) else done (err e) g

-- `locals().get("model", payload)`, where the decoding raised.
abbrev pub rejected_model : Option String → Value → String
rejected_model none payload = type_name payload
rejected_model (some earlier) payload = earlier

-- What `_process_inputs` does with an input.
unfoldable pub serve_input : Settings → Value → Act (Unit {0})
unfolding handle_input reject_input handle
serve_input s payload g = elim (decode_occid_input s.codec payload) [
  | err e ↦ reject_input (rejected_model g.last_model payload) e g
  | ok i ↦
      let name = input_name i.family in
      handle (reject_input name)
        (handle_input s i.family i.body (record g { last_model = some name }))
]

-- What follows the wait for the queue, which fails where the timeout ends first.
unfoldable pub serve_next_request : Settings → Result (Unit {0}) → Act (Unit {0})
unfolding handle_command
serve_next_request s (err e) g = done (ok tt) g
serve_next_request s (ok _) g = elim g.request_queue [
  | [] ↦ done (ok tt) g
  | request ∷ rest ↦ handle_command s request (record g { request_queue = rest })
]

unfoldable pub serve_next_input : Settings → Result (Unit {0}) → Act (Unit {0})
unfolding serve_input
serve_next_input s (err e) g = done (ok tt) g
serve_next_input s (ok _) g = elim g.input_queue [
  | [] ↦ done (ok tt) g
  | payload ∷ rest ↦ serve_input s payload (record g { input_queue = rest })
]

-- A turn of `_process_requests`, which ends where the adapter is stopped before the wait; what the wait
-- brings is served even where the adapter is stopped during it.
unfoldable pub process_requests : Settings → Act (Unit {0})
unfolding serve_next_request
process_requests s g =
    if g.stop_event then done (ok tt) g else await Call.wait_request g (serve_next_request s)

-- A turn of `_process_inputs`.
unfoldable pub process_inputs : Settings → Act (Unit {0})
unfolding serve_next_input
process_inputs s g =
    if g.stop_event then done (ok tt) g else await Call.wait_input g (serve_next_input s)

-- `float(value)`
abbrev pub to_float : Option ℤ → Result ℤ
to_float none = raise ErrorClass.type_error "float() argument must be a string or a real number"
to_float (some v) = ok v

-- `if not self.manual_control_started`
unfoldable pub start_altitude_control : Act (Unit {0})
unfolding go_on
start_altitude_control g =
    if g.manual_control_started
    then done (ok tt) g
    else (call Call.start_altitude_control
          >> change (λ g. record g { manual_control_started = true }))
        g

abbrev pub publish_sample : Option Value → Act (Unit {0})
publish_sample none = pure tt
publish_sample (some body) = publish_model "control_override" body

-- A turn of `_manual_control_loop` with a fresh sample; `output` and `sample` are read before the calls.
unfoldable pub send_sample : Settings → ControlAxes → Option Value → Act (Unit {0})
unfolding mavsdk_manual_throttle start_altitude_control publish_model go_on
send_sample s output sample = do
  pitch ← lift (to_float output.pitch)
  roll ← lift (to_float output.roll)
  signed ← lift (to_float output.throttle)
  throttle ← lift (mavsdk_manual_throttle signed)
  yaw ← lift (to_float output.yaw)
  call (Call.set_manual_control_input pitch roll throttle yaw)
  start_altitude_control
  publish_sample sample
  publish_model "control_output" (s.readers.pack_control_axes output)

-- A turn of `_manual_control_loop`.
unfoldable pub manual_control_turn : Settings → Act (Unit {0})
unfolding override_is_fresh send_sample
manual_control_turn s g =
    if g.stop_event
    then done (ok tt) g
    else if override_is_fresh s g
    then send_sample s g.control_output g.control_override g
    else done (ok tt) g
