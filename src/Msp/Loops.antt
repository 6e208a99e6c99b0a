-- ===== src/Msp/Loops.antt =====
-- The threads of the adapter: requests, direct control, and the main loop. `now` is the monotonic
-- clock, `wall` the time that an envelope carries.

use mpfc.Prelude.{
  ℕ, ◌+◌, String, Bool, true, false, ◌&&◌, Option, none, some, List, [], ◌∷◌, ◌++◌, nat_equality,
  string_equality, pair_equality, ◌==◌, ltb, if◌then◌else◌,
}
use mpfc.Dict.{Dict}
use mpfc.Exec.{ErrorClass, Error, Result, ok, err, is_data_error}
use mpfc.Json.{Value, null, bool, int, float, str, list, dict, end, field, get_item, build_envelope}
use mpfc.Occid.{
  CommandFamily, Command, InputFamily, Input, family_name, input_name, decode_occid_command,
  decode_occid_input,
}
use mpfc.Text.{◌<>◌}
use mpfc.Runtime.{post, diag_topic, enqueue_response, publish_error}
use mpfc.Msp.{
  FlightControl, set_rc_channels, Settings, MspInterface, World, Job, at_once, unsupported,
}
use mpfc.Msp.Channels.{is_manual, override_is_fresh, build_override_channels}
use mpfc.Msp.Commands.{
  handle_state_change, handle_process_control, handle_configuration, handle_motion,
}

-- `_respond`
unfoldable pub respond : String → String → Bool → Option String → MspInterface → MspInterface
respond request_id action succeeded text g = record g {
  runtime =
      enqueue_response
        (record {
          request_id = request_id;
          action = action;
          succeeded = succeeded;
          payload = dict (elim text [ none ↦ end | some words ↦ field "error" (str words) end ]);
        })
        g.runtime;
}

-- `except (UnsupportedCommand, ValueError, TypeError)`
abbrev pub is_refusal : Error → Bool
is_refusal e = elim e.class [
  | ErrorClass.unsupported_command ↦ true
  | ErrorClass.value_error ↦ true
  | ErrorClass.type_error ↦ true
  | _ ↦ false
]

-- The tests of the class of a command.
unfoldable pub by_family : Settings → CommandFamily → Value → Job
unfolding handle_state_change handle_process_control handle_configuration handle_motion
by_family s CommandFamily.state_change body =
    at_once (handle_state_change s (s.readers.state_change body))
by_family s CommandFamily.process_control body =
    handle_process_control s (s.readers.process_control body)
by_family s CommandFamily.configuration body =
    at_once (handle_configuration s (s.readers.configuration body))
by_family s CommandFamily.motion body = at_once (handle_motion s (s.readers.motion body))
by_family s CommandFamily.resource body =
    at_once (unsupported "MSP adapter has no mapping for ResourceCommand")
by_family s CommandFamily.execution body =
    at_once (unsupported "MSP adapter has no mapping for ExecutionCommand")
by_family s (CommandFamily.other_command name) body =
    at_once (unsupported ("unsupported OCCID UAV command " <> name))

unfoldable pub carry_out : Settings → Command → Job
unfolding by_family
carry_out s command = by_family s command.family command.body

-- What follows the `try` block of `_handle_command`.
unfoldable pub conclude :
    String → String → Option (Result (Unit {0}) × World) → Option (Result (Unit {0}) × World)
unfolding respond
conclude request_id action none = none
conclude request_id action (some (ok _, w)) =
    some (ok tt, record w { node = respond request_id action true none w.node })
conclude request_id action (some (err e, w)) =
    if is_refusal e
    then some (ok tt, record w { node = respond request_id action false (some e.text) w.node })
    else some (err e, w)

-- `_handle_command`. The decoding stands outside the `try` block.
unfoldable pub handle_command : Settings → Value → Job
unfolding carry_out conclude
handle_command s request w = elim (decode_occid_command s.codec s.readers.show request) [
  | err e ↦ some (err e, w)
  | ok (request_id, command) ↦
      conclude request_id (family_name command.family) (carry_out s command w)
]

-- `_capture_loop_error`: the first error is kept.
unfoldable pub capture_loop_error : Settings → String → Error → ℕ → MspInterface → MspInterface
capture_loop_error s source e wall g = elim g.loop_error [
  | some _ ↦ record g { stop_event = true }
  | none ↦ record g {
    loop_error = some e;
    loop_error_source = some source;
    runtime = publish_error (s.readers.trace e) wall g.runtime;
    loop_error_published = true;
    stop_event = true;
  }
]

-- What follows a request: an error that is not caught is captured.
unfoldable pub end_request :
    Settings → ℕ → Option (Result (Unit {0}) × World) → Option (Result (Unit {0}) × World)
unfolding capture_loop_error
end_request s wall none = none
end_request s wall (some (ok _, w)) = some (ok tt, w)
end_request s wall (some (err e, w)) =
    some (ok tt, record w { node = capture_loop_error s "process_requests" e wall w.node })

-- A turn of `_process_requests`; nothing happens where the queue is empty at its timeout.
unfoldable pub take_next : Settings → ℕ → Bool → List Value → Job
unfolding handle_command end_request
take_next s wall true waiting w = some (ok tt, w)
take_next s wall false [] w = some (ok tt, w)
take_next s wall false (request ∷ rest) w =
    end_request s wall
      (handle_command s request (record w { node = record w.node { request_queue = rest } }))

unfoldable pub process_request : Settings → ℕ → Job
unfolding take_next
process_request s wall w = take_next s wall w.node.stop_event w.node.request_queue w

-- `_publish_input_rejected`
unfoldable pub publish_input_rejected : String → String → ℕ → MspInterface → MspInterface
publish_input_rejected model words wall g =
    let topic = diag_topic g.runtime.client_id "INPUT_REJECTED" in
    record g {
      runtime = record g.runtime {
        client =
            post topic
              (build_envelope g.runtime.client_id topic wall (
                dict (
                  field "event" (str "INPUT_REJECTED")
                    (field "model" (str model) (field "error" (str words) end)))))
              g.runtime.client;
      };
    }

-- `_handle_input` on what is decoded, where no other thread ends the process between the test of the mode
-- and the store of the sample.
unfoldable pub take_input : Settings → ℕ → ℕ → Input → MspInterface → MspInterface
unfolding publish_input_rejected
take_input s now wall i g = elim i.family [
  | InputFamily.control_override ↦
      if is_manual g.direct_control_mode
      then record g {
        control_override = some (s.readers.control_override i.body);
        control_override_updated_at = now;
      }
      else publish_input_rejected "ControlOverride"
          "ControlOverride requires active MANUAL_AXIS direct-control process" wall g
  | other ↦
      publish_input_rejected (input_name i.family)
        ("unsupported MSP direct input " <> input_name i.family) wall g
]

-- `type(v).__name__`
abbrev pub type_name : Value → String
type_name null = "NoneType"
type_name (bool b) = "bool"
type_name (int n) = "int"
type_name (float x) = "float"
type_name (str t) = "str"
type_name (list xs) = "list"
type_name (dict d) = "dict"

-- The main loop's handling of an input message. The handler of the exception reads `data` again.
unfoldable pub on_input : Settings → ℕ → ℕ → Value → MspInterface → Result (Unit {0}) × MspInterface
unfolding take_input publish_input_rejected
on_input s now wall payload g = elim (get_item "data" payload) [
  | err e ↦ (err e, g)
  | ok body ↦ elim (decode_occid_input s.codec body) [
    | ok i ↦ (ok tt, take_input s now wall i g)
    | err e ↦
        if is_data_error e
        then (ok tt, publish_input_rejected (type_name body) e.text wall g)
        else (err e, g)
  ]
]

-- A message that the main loop received.
unfoldable pub on_message :
    Settings → ℕ → ℕ → String → Value → MspInterface → Result (Unit {0}) × MspInterface
unfolding on_input
on_message s now wall topic payload g =
    if topic == s.request_topic
    then elim (get_item "data" payload) [
      | err e ↦ (err e, g)
      | ok request ↦ (ok tt, record g { request_queue = g.request_queue ++ request ∷ [] })
    ]
    else if topic == s.input_topic
    then on_input s now wall payload g
    else (ok tt, g)

-- `latest_flight_control is not None and latest_flight_control.override_active`
abbrev pub is_active : Option FlightControl → Bool
is_active none = false
is_active (some f) = f.override_active

-- `if channels:`, with the time that the loop keeps.
unfoldable pub send_override :
    Settings → ℕ → Dict String ℕ → MspInterface → ℕ × Result (Unit {0}) × MspInterface
send_override s now [] g = (now, ok tt, g)
send_override s now (channel ∷ rest) g = (
  now,
  s.answer g.sent (set_rc_channels (channel ∷ rest)),
  record g { sent = g.sent ++ set_rc_channels (channel ∷ rest) ∷ [] },
)

-- A turn of `_override_loop`, with the time of the last turn that looked at the override.
unfoldable pub override_turn :
    Settings → ℕ → ℕ → MspInterface → ℕ × Result (Unit {0}) × MspInterface
unfolding override_is_fresh build_override_channels send_override
override_turn s now last_send g =
    if ltb now (last_send + s.override_send_interval)
    then (last_send, ok tt, g)
    else if override_is_fresh s now g && is_active g.latest_flight_control
    then send_override s now (build_override_channels s g.control_override) g
    else (now, ok tt, g)
