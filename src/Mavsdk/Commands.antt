-- ===== src/Mavsdk/Commands.antt =====
-- The publishing of models, and the commands of the adapter.
use mpfc.Prelude.{
  String, Bool, true, false, not, ◌&&◌, ◌||◌, Option, none, some, nat_equality, string_equality,
  pair_equality, ◌==◌, if◌then◌else◌,
}
use mpfc.Dict.{contains}
use mpfc.Exec.{ErrorClass, Error, ok, err}
use mpfc.Text.{◌<>◌}
use mpfc.Json.{Value, dict, end, field, str}
use mpfc.Occid.{CommandFamily, family_name, decode_occid_command}
use mpfc.Runtime.{enqueue_response}
use mpfc.Scheduler.{update}
use mpfc.Semantics.{
  StateChange, ProcessControl, ProcessOperation, Configuration, Motion, MotionOperation,
  metadata_scalar, wanted_armed, as_mode, as_number, is_disable, is_set_parameter, process_name_of,
}
use mpfc.Mavsdk.{
  Call, FlightControl, Settings, MavsdkInterface, done, Act, go_on, ◌>>=◌, ◌>>◌, lift, unsupported,
  change, call, handle,
}

-- `_publish_model`
unfoldable pub publish_model : String → Value → Act (Unit {0})
publish_model key model g =
    if contains key g.state_scheduler.topics
    then elim (update key model g.state_scheduler) [
      | ok scheduler ↦ done (ok tt) (record g { state_scheduler = scheduler })
      | err e ↦ done (err e) g
    ]
    else done (ok tt) g

-- `_publish_flight_control`, on what it changes
unfoldable pub publish_flight_control : Settings → (FlightControl → FlightControl) → Act (Unit {0})
unfolding publish_model
publish_flight_control s updates g =
    let flight_control = updates g.flight_control in
    publish_model "flight_control" (s.readers.pack_flight_control flight_control)
      (record g { flight_control = flight_control })

abbrev pub direct_control_attitude : String
direct_control_attitude = "ATTITUDE_THRUST"

abbrev pub direct_control_manual : String
direct_control_manual = "MANUAL_AXIS"

-- `_set_standard_mode`
unfoldable pub set_standard_mode : String → Bool → Act (Unit {0})
set_standard_mode mode false =
    unsupported "MAVSDK adapter cannot generically deactivate an arbitrary mode"
set_standard_mode mode true =
    if mode == "POSITION_HOLD"
    then call Call.hold
    else unsupported "MAVSDK adapter does not map standard mode"

-- `self.direct_control_mode is not None and self.direct_control_mode != mode`
abbrev pub is_other : String → Option String → Bool
is_other mode none = false
is_other mode (some active) = not (active == mode)

-- `_begin_direct_control`
unfoldable pub begin_direct_control : Settings → String → Act (Unit {0})
begin_direct_control s mode g =
    if mode == direct_control_manual && not s.consume_control_override
    then unsupported "MANUAL_AXIS direct control is disabled by adapter configuration" g
    else if not (mode == direct_control_attitude || mode == direct_control_manual)
    then unsupported "unsupported direct-control process" g
    else if is_other mode g.direct_control_mode
    then unsupported "direct-control process already active" g
    else done (ok tt) (record g { direct_control_mode = some mode })

-- What `_end_direct_control` does behind the call.
unfoldable pub reset_direct_control : Settings → Act (Unit {0})
unfolding publish_flight_control
reset_direct_control s g =
    publish_flight_control s
      (λ f. record f { override_active = some false; attitude_setpoint = none })
      (record g {
        offboard_attitude_started = false;
        manual_control_started = false;
        direct_control_mode = none;
        control_override = none;
        control_override_updated_at = 0;
      })

-- `_end_direct_control`
unfoldable pub end_direct_control : Settings → Act (Unit {0})
unfolding reset_direct_control go_on
end_direct_control s g =
    if g.offboard_attitude_started
    then (call Call.stop_offboard >> reset_direct_control s) g
    else reset_direct_control s g

abbrev pub set_armed : Bool → Act (Unit {0})
set_armed true = call Call.arm
set_armed false = call Call.disarm

-- `_handle_state_change`
unfoldable pub handle_state_change : Settings → StateChange → Act (Unit {0})
unfolding wanted_armed metadata_scalar set_standard_mode go_on
handle_state_change s command =
    if command.property_name == "armed"
    then (lift (wanted_armed command.operation command.value) >>= set_armed)
    else if command.property_name == "standard_flight_mode"
    then (do
      raw ← lift (metadata_scalar command.value)
      mode ← lift (as_mode s.is_standard_mode raw)
      set_standard_mode mode (not (is_disable command.operation)))
    else if command.property_name == "native_flight_mode_name"
        || command.property_name == "native_flight_mode_code"
    then unsupported "MAVSDK adapter does not expose arbitrary native mode selection"
    else unsupported "unsupported MAVSDK state property"

-- The processes that START knows.
unfoldable pub start_process : Settings → String → Act (Unit {0})
unfolding begin_direct_control
start_process s name =
    if name == "takeoff"
    then call Call.takeoff
    else if name == "land"
    then call Call.land
    else if name == "return_to_launch"
    then call Call.return_to_launch
    else if name == "direct_control.attitude_thrust"
    then begin_direct_control s direct_control_attitude
    else if name == "direct_control.manual_axis"
    then begin_direct_control s direct_control_manual
    else unsupported "unsupported MAVSDK process"

-- `_handle_process_control`, on the operation and the name
unfoldable pub control_process : Settings → ProcessOperation → String → Act (Unit {0})
unfolding start_process end_direct_control
control_process s ProcessOperation.start name = start_process s name
control_process s ProcessOperation.halt name =
    if name == "direct_control"
    then end_direct_control s
    else unsupported "unsupported MAVSDK process"
control_process s ProcessOperation.other_process name = unsupported "unsupported MAVSDK process"

unfoldable pub handle_process_control : Settings → ProcessControl → Act (Unit {0})
unfolding control_process
handle_process_control s command = control_process s command.operation (process_name_of command)

-- `_handle_configuration`
unfoldable pub handle_configuration : Settings → Configuration → Act (Unit {0})
unfolding metadata_scalar go_on
handle_configuration s command =
    if is_set_parameter command.operation && command.parameter_name == "takeoff_altitude_m"
    then (do
      raw ← lift (metadata_scalar command.value)
      altitude ← lift (as_number raw)
      call (Call.set_takeoff_altitude altitude))
    else unsupported "unsupported MAVSDK configuration"

-- `_handle_motion`, on the operation; `body` is the command, for the conversion.
unfoldable pub move : Settings → Value → MotionOperation → Act (Unit {0})
unfolding go_on
move s body MotionOperation.move_to g =
    (lift (s.readers.goto_command_to_fields body g.last_abs_alt_m g.last_rel_alt_m g.last_attitude)
        >>= λ fields. call (Call.goto_location fields))
      g
move s body MotionOperation.maintain g = call Call.hold g
move s body MotionOperation.halt_motion g = call Call.hold g
move s body MotionOperation.other_motion g = unsupported "unsupported MAVSDK motion operation" g

unfoldable pub handle_motion : Settings → Value → Motion → Act (Unit {0})
unfolding move
handle_motion s body command = move s body command.operation

-- The tests of the class of a command.
unfoldable pub by_family : Settings → CommandFamily → Value → Act (Unit {0})
unfolding handle_state_change handle_process_control handle_configuration handle_motion
by_family s CommandFamily.state_change body = handle_state_change s (s.readers.state_change body)
by_family s CommandFamily.process_control body =
    handle_process_control s (s.readers.process_control body)
by_family s CommandFamily.configuration body = handle_configuration s (s.readers.configuration body)
by_family s CommandFamily.motion body = handle_motion s body (s.readers.motion body)
by_family s CommandFamily.resource body =
    unsupported "MAVSDK adapter has no mapping for ResourceCommand"
by_family s CommandFamily.execution body =
    unsupported "MAVSDK adapter has no mapping for ExecutionCommand"
by_family s (CommandFamily.other_command name) body =
    unsupported ("unsupported OCCID UAV command " <> name)

-- `_respond`
unfoldable pub respond : String → String → Bool → Option String → MavsdkInterface → MavsdkInterface
respond request_id action succeeded text g = record g {
  runtime =
      enqueue_response
        (record {
          request_id = request_id;
          action = action;
          succeeded = succeeded;
          payload = dict (elim text [ none ↦ end | some words ↦ field "error" (str words) end ]);
        })
        g.runtime;
}

-- `except (ActionError, OffboardError, UnsupportedCommand, ValueError, TypeError)`
abbrev pub is_refusal : Error → Bool
is_refusal e = elim e.class [
  | ErrorClass.action_error ↦ true
  | ErrorClass.offboard_error ↦ true
  | ErrorClass.unsupported_command ↦ true
  | ErrorClass.value_error ↦ true
  | ErrorClass.type_error ↦ true
  | _ ↦ false
]

-- The handler of `_handle_command`.
unfoldable pub refuse : String → String → Error → Act (Unit {0})
unfolding respond
refuse request_id action e g =
    if is_refusal e
    then done (ok tt) (respond request_id action false (some e.text) g)
    else done (err e) g

-- `_handle_command`. The decoding stands outside the `try` block.
unfoldable pub handle_command : Settings → Value → Act (Unit {0})
unfolding by_family respond refuse handle go_on
handle_command s request g = elim (decode_occid_command s.codec s.readers.show request) [
  | err e ↦ done (err e) g
  | ok (request_id, command) ↦
      let action = family_name command.family in
      handle (refuse request_id action) (
        (by_family s command.family command.body >> change (respond request_id action true none)) g)
]
