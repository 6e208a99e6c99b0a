-- ===== src/Msp/Frame.antt =====
-- What the commands leave alone: a predicate on the adapter's state that the changes which commands
-- make keep is kept by every command.
use mpfc.Semantics.{
  Configuration, Datum, Destination, MetadataValue, MotionOperation, ProcessOperation, Scalar,
  StateChange, as_mode, as_number, as_text, is_disable, is_set_parameter, metadata_scalar,
  wanted_armed,
}
use mpfc.Prelude.{
  ℕ, ◌+◌, String, inl, inr, Bool, true, false, not, ◌&&◌, Option, none, some, List, [], ◌∷◌, ◌++◌,
  nat_equality, string_equality, pair_equality, ◌==◌, ltb, is_some, Bool-cases, Option-cases,
}
use mpfc.Dict.{lookup, contains}
use mpfc.Exec.{Error, Result, ok}
use mpfc.Prelude.Int.{ℤ}
use mpfc.Json.{Value}
use mpfc.Occid.{CommandFamily, Command}
use mpfc.Msp.{Call, Settings, MspInterface, Tick, Act, Job, at_once, ◌>>=◌, lift, unsupported, tell}
use mpfc.Msp.Channels.{
  arm_mode_name, override_mode_name, apply_mode, clear_mode, activate_override, deactivate_override,
  find_mode, set_standard_mode, standard_mode_native_name, set_throttle, is_manual,
}
use mpfc.Msp.Flight.{
  see, watch, arm_for_flight, touch_down, land_from, throttle_until, takeoff_timed_out,
  landing_timed_out, has_climbed, has_landed, climb, takeoff, descend, land,
}
use mpfc.Msp.Commands.{
  set_armed, handle_state_change, begin_direct_control, end_direct_control, return_to_launch,
  start_process, control_process, handle_process_control, handle_configuration, go_to, set_goto,
  move, handle_motion,
}
use mpfc.Msp.Loops.{by_family, carry_out}
use mpfc.Msp.Stability.{
  Keeps, After, Stays, IsStable, bind-Keeps, then-Keeps, lift-Keeps, if-Keeps, if-Stays,
  at_once-Stays, afterwards-Stays,
}

module _ (P : MspInterface → Type 0) (stable : IsStable P) (s : Settings) where
  tell-Keeps : (call : Call) → Keeps P (tell s call)
  unfolding tell
  tell-Keeps call g h = stable.by_call g (g.sent ++ call ∷ []) h

  set_throttle-Keeps : (value : ℕ) → Keeps P (set_throttle s value)
  unfolding set_throttle
  set_throttle-Keeps value = tell-Keeps _

  apply_mode-Keeps : (mode : String) → Keeps P (apply_mode s mode)
  unfolding apply_mode
  apply_mode-Keeps mode g h = elim (Option-cases (lookup mode s.mode_channels)) [
    | inl missing ↦ rw (missing, apply_mode) h
    | inr (c, found) ↦ rw (found, apply_mode) (tell-Keeps _ g h)
  ]

  clear_mode-Keeps : (mode : String) → Keeps P (clear_mode s mode)
  unfolding clear_mode
  clear_mode-Keeps mode g h = elim (Option-cases (lookup mode s.mode_channels)) [
    | inl missing ↦ rw (missing, clear_mode) h
    | inr (c, found) ↦ rw (found, clear_mode) (tell-Keeps _ g h)
  ]

  activate_override-Keeps : Keeps P (activate_override s)
  unfolding activate_override
  activate_override-Keeps =
      if-Keeps P (contains override_mode_name s.mode_channels) _ _
        (apply_mode-Keeps override_mode_name) (lift-Keeps P (ok tt))

  set_standard_mode-Keeps :
      (mode : String) (enabled : Bool) → Keeps P (set_standard_mode s mode enabled)
  unfolding set_standard_mode
  set_standard_mode-Keeps mode enabled =
      bind-Keeps P (lift (standard_mode_native_name s mode)) _
        (lift-Keeps P (standard_mode_native_name s mode))
        λ name. if-Keeps P enabled _ _ (apply_mode-Keeps name) (clear_mode-Keeps name)

  deactivate_override-Keeps : Keeps P (deactivate_override s)
  unfolding deactivate_override
  deactivate_override-Keeps =
      if-Keeps P (contains override_mode_name s.mode_channels) _ _
        (clear_mode-Keeps override_mode_name) (lift-Keeps P (ok tt))

  watch-Stays :
      (arrived late : Bool) (finish : Act (Unit {0})) (e : Error) (more : Job)
      → Keeps P finish
      → Stays P more
      → Stays P (watch arrived late finish e more)
  watch-Stays true late finish e more hf hm w h = hf w.node h
  watch-Stays false true finish e more hf hm w h = h
  watch-Stays false false finish e more hf hm w h = hm w h

  throttle_until-After :
      (throttle : ℕ) (arrived : Option ℤ → Bool) (finish : Act (Unit {0})) (deadline : ℕ)
      (e : Error)
      → Keeps P finish
      → (ts : List Tick) (g : MspInterface) → P g
      → After P (throttle_until s throttle arrived finish deadline e ts g)
  unfolding throttle_until
  throttle_until-After throttle arrived finish deadline e hf [] g h = tt
  throttle_until-After throttle arrived finish deadline e hf (t ∷ ts) g h =
      let ih : (g' : MspInterface)
          → P g'
          → After P (throttle_until s throttle arrived finish deadline e ts g') =
        throttle_until-After throttle arrived finish deadline e hf ts in
      elim (Bool-cases t.stopped) [
        | inl stopped ↦ rw (stopped, throttle_until) (stable.by_turn g t h)
        | inr flying ↦
            rw (flying, throttle_until)
              (afterwards-Stays P (set_throttle s throttle) _ (set_throttle-Keeps throttle)
                (watch-Stays (arrived t.altitude) (ltb deadline t.clock) finish e _ hf
                  (λ w. ih w.node))
                (record { node = see t g; script = ts }) (stable.by_turn g t h))
      ]

  climb-After :
      (target : ℤ) (ts : List Tick) (g : MspInterface) → P g → After P (climb s target ts g)
  unfolding climb
  climb-After target [] g h = tt
  climb-After target (t ∷ ts) g h =
      throttle_until-After s.takeoff_throttle (has_climbed target) _ (t.clock + s.takeoff_timeout)
        takeoff_timed_out (set_throttle-Keeps s.hover_throttle) (t ∷ ts) g h

  arm_for_flight-Keeps : Keeps P (arm_for_flight s)
  unfolding arm_for_flight
  arm_for_flight-Keeps =
      then-Keeps P (activate_override s) _ activate_override-Keeps (apply_mode-Keeps arm_mode_name)

  takeoff-Stays : Stays P (takeoff s)
  unfolding takeoff
  takeoff-Stays w h = elim (Option-cases w.node.takeoff_altitude_m) [
    | inl missing ↦ rw (missing, takeoff) h
    | inr (target, found) ↦
        rw (found, takeoff)
          (afterwards-Stays P (arm_for_flight s) _ arm_for_flight-Keeps
            (λ w' h'. climb-After target w'.script w'.node h') w h)
  ]

  touch_down-Keeps : Keeps P (touch_down s)
  unfolding touch_down
  touch_down-Keeps =
      then-Keeps P (set_throttle s s.rx_min) _ (set_throttle-Keeps s.rx_min)
        (clear_mode-Keeps arm_mode_name)

  descend-After :
      (start : ℕ) (ts : List Tick) (g : MspInterface) → P g → After P (descend s start ts g)
  unfolding descend
  descend-After start ts g h =
      throttle_until-After s.landing_throttle (has_landed s.in_air_alt_threshold) _
        (start + s.landing_timeout) landing_timed_out touch_down-Keeps ts g h

  land_from-After : (ts : List Tick) (g : MspInterface) → P g → After P (land_from s ts g)
  unfolding land_from
  land_from-After [] g h = tt
  land_from-After (t ∷ ts) g h =
      afterwards-Stays P (arm_for_flight s) _ arm_for_flight-Keeps
        (λ w h'. descend-After t.clock w.script w.node h') (record { node = g; script = t ∷ ts }) h

  land-Stays : Stays P (land s)
  unfolding land
  land-Stays w h = land_from-After w.script w.node h

  set_armed-Keeps : (armed : Bool) → Keeps P (set_armed s armed)
  unfolding set_armed
  set_armed-Keeps true = then-Keeps P (activate_override s) _ activate_override-Keeps (
      then-Keeps P (apply_mode s arm_mode_name) _ (apply_mode-Keeps arm_mode_name)
        (set_throttle-Keeps s.rx_min))
  set_armed-Keeps false = clear_mode-Keeps arm_mode_name

  -- A scalar is read, tested, and then used.
  read-Keeps :
      {A : Type 0} (value : Option MetadataValue) (test : Scalar → Result A)
      (use_it : A → Act (Unit {0}))
      → ((a : A) → Keeps P (use_it a))
      → Keeps P (lift (metadata_scalar value) >>= λ raw. lift (test raw) >>= use_it)
  read-Keeps value test use_it k =
      bind-Keeps P (lift (metadata_scalar value)) _ (lift-Keeps P (metadata_scalar value))
        λ raw. bind-Keeps P (lift (test raw)) use_it (lift-Keeps P (test raw)) k

  handle_state_change-Keeps : (command : StateChange) → Keeps P (handle_state_change s command)
  unfolding handle_state_change
  handle_state_change-Keeps command =
      let enabled = not (is_disable command.operation) in
      if-Keeps P (command.property_name == "armed") _ _
        (bind-Keeps P (lift (wanted_armed command.operation command.value)) (set_armed s)
          (lift-Keeps P (wanted_armed command.operation command.value)) set_armed-Keeps)
        (if-Keeps P (command.property_name == "standard_flight_mode") _ _
          (read-Keeps command.value (as_mode s.is_standard_mode) _
            (λ mode. set_standard_mode-Keeps mode enabled))
          (if-Keeps P (command.property_name == "native_flight_mode_name") _ _
            (read-Keeps command.value as_text _
              λ mode. if-Keeps P enabled _ _ (apply_mode-Keeps mode) (clear_mode-Keeps mode))
            (if-Keeps P (command.property_name == "native_flight_mode_code") _ _ (λ w h. h)
              (λ w h. h))))

  begin_direct_control-Keeps : Keeps P (begin_direct_control s)
  unfolding begin_direct_control
  begin_direct_control-Keeps g h =
      elim (Bool-cases (is_some g.direct_control_mode && not (is_manual g.direct_control_mode))) [
        | inl busy ↦ rw busy h
        | inr free ↦ rw free (activate_override-Keeps _ (stable.by_begin g h))
      ]

  end_direct_control-Keeps : Keeps P (end_direct_control s)
  unfolding end_direct_control
  end_direct_control-Keeps g h = deactivate_override-Keeps _ (stable.by_end g h)

  return_to_launch-Keeps : Keeps P (return_to_launch s)
  unfolding return_to_launch
  return_to_launch-Keeps =
      let found = find_mode s ("NAV RTH" ∷ "RTH" ∷ "NAV_RTH" ∷ []) in
      bind-Keeps P (lift found) (apply_mode s) (lift-Keeps P found) apply_mode-Keeps

  start_process-Stays : (name : String) → Stays P (start_process s name)
  unfolding start_process
  start_process-Stays name = if-Stays P (name == "takeoff") _ _ takeoff-Stays (
      if-Stays P (name == "land") _ _ land-Stays (
        if-Stays P (name == "return_to_launch") _ _
          (at_once-Stays P (return_to_launch s) return_to_launch-Keeps)
          (if-Stays P (name == "direct_control.manual_axis") _ _
            (at_once-Stays P (begin_direct_control s) begin_direct_control-Keeps) (λ w h. h))))

  control_process-Stays :
      (operation : ProcessOperation) (name : String) → Stays P (control_process s operation name)
  unfolding control_process
  control_process-Stays ProcessOperation.start name w h = start_process-Stays name w h
  control_process-Stays ProcessOperation.halt name w h =
      if-Stays P (name == "direct_control") (at_once (end_direct_control s))
        (at_once (unsupported "unsupported MSP process"))
        (at_once-Stays P (end_direct_control s) end_direct_control-Keeps) (λ w' h'. h') w h
  control_process-Stays ProcessOperation.other_process name w h = h

  handle_configuration-Keeps : (command : Configuration) → Keeps P (handle_configuration s command)
  unfolding handle_configuration
  handle_configuration-Keeps command =
      if-Keeps P
        (is_set_parameter command.operation && command.parameter_name == "takeoff_altitude_m") _ _
        (read-Keeps command.value as_number _
          λ altitude g h. stable.by_altitude g (some altitude) h)
        (λ w h. h)

  go_to-Keeps : (position : Destination) (frame : Datum) → Keeps P (go_to s position frame)
  go_to-Keeps position Datum.relative g h = tell-Keeps _ g h
  go_to-Keeps position (Datum.other_datum _) g h = h

  move-Keeps :
      (operation : MotionOperation) (destination : Option Destination)
      → Keeps P (move s operation destination)
  unfolding move set_goto
  move-Keeps MotionOperation.move_to none g h = h
  move-Keeps MotionOperation.move_to (some position) g h =
      go_to-Keeps position position.alt_frame g h
  move-Keeps MotionOperation.maintain destination g h =
      set_standard_mode-Keeps "POSITION_HOLD" true g h
  move-Keeps MotionOperation.halt_motion destination g h =
      set_standard_mode-Keeps "POSITION_HOLD" true g h
  move-Keeps MotionOperation.other_motion destination g h = h

  by_family-Stays : (family : CommandFamily) (body : Value) → Stays P (by_family s family body)
  unfolding by_family handle_process_control handle_motion
  by_family-Stays CommandFamily.state_change body w h =
      handle_state_change-Keeps (s.readers.state_change body) w.node h
  by_family-Stays CommandFamily.process_control body w h =
      control_process-Stays (s.readers.process_control body).operation _ w h
  by_family-Stays CommandFamily.configuration body w h =
      handle_configuration-Keeps (s.readers.configuration body) w.node h
  by_family-Stays CommandFamily.motion body w h =
      move-Keeps (s.readers.motion body).operation _ w.node h
  by_family-Stays CommandFamily.resource body w h = h
  by_family-Stays CommandFamily.execution body w h = h
  by_family-Stays (CommandFamily.other_command name) body w h = h

  pub carry_out-Stays : (command : Command) → Stays P (carry_out s command)
  unfolding carry_out
  carry_out-Stays command = by_family-Stays command.family command.body
