-- ===== src/Msp/Commands.antt =====
-- The commands and the direct input of the adapter.
use mpfc.Semantics.{
  Configuration, Datum, Destination, Motion, MotionOperation, ProcessControl, ProcessOperation,
  StateChange, as_mode, as_number, as_text, is_disable, is_set_parameter, metadata_scalar,
  process_name_of, wanted_armed,
}
use mpfc.Prelude.{
  String, Bool, true, false, not, ◌&&◌, Option, none, some, [], ◌∷◌, nat_equality, string_equality,
  pair_equality, ◌==◌, if◌then◌else◌, is_some,
}
use mpfc.Msp.{
  set_waypoint, Settings, Act, Job, at_once, ◌>>=◌, ◌>>◌, lift, unsupported, change, tell,
}
use mpfc.Msp.Channels.{
  arm_mode_name, direct_control_manual, apply_mode, clear_mode, activate_override,
  deactivate_override, find_mode, set_standard_mode, set_throttle, is_manual,
}
use mpfc.Msp.Flight.{takeoff, land}

-- The branch of `_handle_state_change` for the property `armed`.
unfoldable pub set_armed : Settings → Bool → Act (Unit {0})
unfolding activate_override apply_mode clear_mode set_throttle
set_armed s true = do activate_override s; apply_mode s arm_mode_name; set_throttle s s.rx_min
set_armed s false = clear_mode s arm_mode_name

-- `_handle_state_change`
unfoldable pub handle_state_change : Settings → StateChange → Act (Unit {0})
unfolding wanted_armed set_armed set_standard_mode apply_mode clear_mode metadata_scalar
handle_state_change s command =
    let enabled = not (is_disable command.operation) in
    if command.property_name == "armed"
    then (lift (wanted_armed command.operation command.value) >>= set_armed s)
    else if command.property_name == "standard_flight_mode"
    then (do
      raw ← lift (metadata_scalar command.value)
      mode ← lift (as_mode s.is_standard_mode raw)
      set_standard_mode s mode enabled)
    else if command.property_name == "native_flight_mode_name"
    then (do
      raw ← lift (metadata_scalar command.value)
      mode ← lift (as_text raw)
      if enabled then apply_mode s mode else clear_mode s mode)
    else if command.property_name == "native_flight_mode_code"
    then unsupported "MSP adapter does not select native modes by numeric code"
    else unsupported "unsupported MSP state property"

-- `_begin_direct_control`
unfoldable pub begin_direct_control : Settings → Act (Unit {0})
unfolding activate_override
begin_direct_control s g =
    if is_some g.direct_control_mode && not (is_manual g.direct_control_mode)
    then unsupported "direct-control process already active" g
    else (change (λ g. record g { direct_control_mode = some direct_control_manual })
          >> activate_override s)
        g

-- `_end_direct_control`
unfoldable pub end_direct_control : Settings → Act (Unit {0})
unfolding deactivate_override
end_direct_control s =
    change (λ g. record g {
      direct_control_mode = none;
      control_override = none;
      control_override_updated_at = 0;
    })
    >> deactivate_override s

-- The processes that START knows.
unfoldable pub return_to_launch : Settings → Act (Unit {0})
unfolding find_mode apply_mode
return_to_launch s = lift (find_mode s ("NAV RTH" ∷ "RTH" ∷ "NAV_RTH" ∷ [])) >>= apply_mode s

unfoldable pub start_process : Settings → String → Job
unfolding takeoff land return_to_launch begin_direct_control
start_process s name =
    if name == "takeoff"
    then takeoff s
    else if name == "land"
    then land s
    else if name == "return_to_launch"
    then at_once (return_to_launch s)
    else if name == "direct_control.manual_axis"
    then at_once (begin_direct_control s)
    else at_once (unsupported "unsupported MSP process")

-- `_handle_process_control`, on the operation and the name
unfoldable pub control_process : Settings → ProcessOperation → String → Job
unfolding start_process end_direct_control
control_process s ProcessOperation.start name = start_process s name
control_process s ProcessOperation.halt name =
    if name == "direct_control"
    then at_once (end_direct_control s)
    else at_once (unsupported "unsupported MSP process")
control_process s ProcessOperation.other_process name =
    at_once (unsupported "unsupported MSP process")

unfoldable pub handle_process_control : Settings → ProcessControl → Job
unfolding control_process
handle_process_control s command = control_process s command.operation (process_name_of command)

-- `_handle_configuration`
unfoldable pub handle_configuration : Settings → Configuration → Act (Unit {0})
unfolding metadata_scalar
handle_configuration s command =
    if is_set_parameter command.operation && command.parameter_name == "takeoff_altitude_m"
    then (do
      raw ← lift (metadata_scalar command.value)
      altitude ← lift (as_number raw)
      change (λ g. record g { takeoff_altitude_m = some altitude }))
    else unsupported "unsupported MSP configuration"

-- `_set_goto`
abbrev pub go_to : Settings → Destination → Datum → Act (Unit {0})
go_to s position Datum.relative =
    tell s (set_waypoint s.go_to_waypoint position.lat position.lon position.alt)
go_to s position (Datum.other_datum _) =
    unsupported "INAV MOVE_TO currently requires RELATIVE altitude"

unfoldable pub set_goto : Settings → Option Destination → Act (Unit {0})
unfolding tell
set_goto s none = unsupported "Motion MOVE_TO requires destination"
set_goto s (some position) = go_to s position position.alt_frame

-- `_handle_motion`, on the operation and the destination
unfoldable pub move : Settings → MotionOperation → Option Destination → Act (Unit {0})
unfolding set_goto set_standard_mode
move s MotionOperation.move_to destination = set_goto s destination
move s MotionOperation.maintain destination = set_standard_mode s "POSITION_HOLD" true
move s MotionOperation.halt_motion destination = set_standard_mode s "POSITION_HOLD" true
move s MotionOperation.other_motion destination = unsupported "unsupported MSP motion operation"

unfoldable pub handle_motion : Settings → Motion → Act (Unit {0})
unfolding move
handle_motion s command = move s command.operation command.destination
