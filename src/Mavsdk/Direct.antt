-- ===== src/Mavsdk/Direct.antt =====
-- The direct input of the adapter: samples, setpoints and what they start.
use mpfc.Prelude.{
  ℕ, ◌+◌, ◌-◌, String, Bool, true, false, ◌&&◌, Option, none, some, List, [], ◌∷◌, nat_equality,
  string_equality, pair_equality, ◌==◌, ltb, leb, if◌then◌else◌, is_some,
}
use mpfc.Exec.{ErrorClass, Result, ok, err, raise}
use mpfc.Text.{◌<>◌}
use mpfc.Prelude.Int.{ℤ, pos, negsuc}
use mpfc.Json.{Value}
use mpfc.Occid.{InputFamily}
use mpfc.Msp.Telemetry.{ControlAxes, pad, assign_at}
use mpfc.Mavsdk.{
  Call, SignedChannel, DirectOverride, Settings, MavsdkInterface, done, Act, go_on, ◌>>=◌, ◌>>◌,
  lift, unsupported, change, call,
}
use mpfc.Mavsdk.Commands.{
  publish_model, publish_flight_control, direct_control_attitude, direct_control_manual,
}

abbrev index_of : ℤ → Result ℕ
index_of (pos n) = ok n
index_of (negsuc n) = raise ErrorClass.value_error "negative control channel index"

-- `if channel.value is not None: aux[index] = float(channel.value)`, behind the padding
abbrev put_channel : ℕ → Option ℤ → List ℤ → List ℤ
put_channel index none aux = pad index aux
put_channel index (some v) aux = assign_at index v (pad index aux)

-- The loop of `_merge_override`.
unfoldable merge_aux : List SignedChannel → List ℤ → Result (List ℤ)
unfolding pad assign_at
merge_aux [] aux = ok aux
merge_aux (channel ∷ rest) aux = elim (index_of channel.channel_index) [
  | err e ↦ err e
  | ok index ↦ merge_aux rest (put_channel index channel.value aux)
]

abbrev or_base : Option ℤ → Option ℤ → Option ℤ
or_base none base = base
or_base (some v) base = some v

-- `_merge_override`
unfoldable pub merge_override : ControlAxes → DirectOverride → Result ControlAxes
unfolding merge_aux
merge_override base override = elim (merge_aux override.aux base.aux) [
  | err e ↦ err e
  | ok aux ↦ ok (record {
    roll = or_base override.roll base.roll;
    pitch = or_base override.pitch base.pitch;
    yaw = or_base override.yaw base.yaw;
    throttle = or_base override.throttle base.throttle;
    aux = aux;
  })
]

-- `self.direct_control_mode == mode`
abbrev pub is_mode : String → Option String → Bool
is_mode mode none = false
is_mode mode (some active) = active == mode

-- `_override_is_fresh`
unfoldable pub override_is_fresh : Settings → MavsdkInterface → Bool
override_is_fresh s g =
    is_mode direct_control_manual g.direct_control_mode
    && is_some g.control_override
    && leb g.clock (g.control_override_updated_at + s.control_override_timeout_s)

-- `_mavsdk_manual_throttle`, from thousandths of [-1, 1] to two-thousandths of [0, 1].
unfoldable pub mavsdk_manual_throttle : ℤ → Result ℕ
mavsdk_manual_throttle (pos n) =
    if ltb 1000 n
    then raise ErrorClass.value_error "OCCID throttle outside [-1, 1]"
    else ok (n + 1000)
mavsdk_manual_throttle (negsuc n) =
    if ltb 999 n
    then raise ErrorClass.value_error "OCCID throttle outside [-1, 1]"
    else ok (999 - n)

-- `if not self.offboard_attitude_started`
unfoldable pub start_offboard : Act (Unit {0})
unfolding go_on
start_offboard g =
    if g.offboard_attitude_started
    then done (ok tt) g
    else (call Call.start_offboard >> change (λ g. record g { offboard_attitude_started = true })) g

-- The first branch of `_handle_input`.
unfoldable pub take_setpoint : Settings → Value → Act (Unit {0})
unfolding start_offboard publish_flight_control go_on
take_setpoint s body g =
    if is_mode direct_control_attitude g.direct_control_mode
    then (do
      fields ← lift (s.readers.attitude_setpoint_to_fields body)
      call (Call.set_attitude fields)
      start_offboard
      publish_flight_control s
          (λ f. record f { attitude_setpoint = some body; override_active = some true }))
        g
    else unsupported
        "ControlAttitudeSetpoint requires active ATTITUDE_THRUST direct-control process" g

-- The block under `control_override_lock`: the sample is kept even where the merge raises.
unfoldable pub keep_sample : Settings → Value → Act (Unit {0})
unfolding merge_override
keep_sample s body g =
    let g' = record g { control_override = some body; control_override_updated_at = g.clock } in
    elim (merge_override g.control_output (s.readers.override body)) [
      | err e ↦ done (err e) g'
      | ok output ↦ done (ok tt) (record g' { control_output = output })
    ]

-- The publishing of the control output that the adapter holds.
unfoldable pub publish_output : Settings → Act (Unit {0})
unfolding publish_model
publish_output s g = publish_model "control_output" (s.readers.pack_control_axes g.control_output) g

-- The second branch of `_handle_input`.
unfoldable pub take_override : Settings → Value → Act (Unit {0})
unfolding keep_sample publish_output publish_model publish_flight_control go_on
take_override s body g =
    if is_mode direct_control_manual g.direct_control_mode
    then (do
      keep_sample s body
      publish_model "control_override" body
      publish_output s
      publish_flight_control s (λ f. record f { override_active = some true }))
        g
    else unsupported "ControlOverride requires active MANUAL_AXIS direct-control process" g

-- `_handle_input`
unfoldable pub handle_input : Settings → InputFamily → Value → Act (Unit {0})
unfolding take_setpoint take_override
handle_input s InputFamily.control_attitude_setpoint body = take_setpoint s body
handle_input s InputFamily.control_override body = take_override s body
handle_input s (InputFamily.other_input name) body =
    unsupported ("unsupported MAVSDK direct input " <> name)
