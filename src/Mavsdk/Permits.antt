-- ===== src/Mavsdk/Permits.antt =====
-- The coroutines of the adapter keep what `Guarded` asks for.
use mpfc.Prelude.{
  some, none, String, ◌≡◌, refl, sym, ◌∙◌, inl, inr, Bool, true, false, not, ◌&&◌, ◌∷◌, arith,
  nat_equality, string_equality, pair_equality, ◌==◌, Bool-cases,
}
use mpfc.Exec.{Error, Result, ok, err, Result-cases}
use mpfc.Json.{Value}
use mpfc.Occid.{CommandFamily, family_name, decode_occid_command}
use mpfc.Semantics.{
  StateChange, Configuration, MotionOperation, ProcessOperation, metadata_scalar, wanted_armed,
  as_mode, as_number, is_disable, is_set_parameter, process_name_of,
}
use mpfc.Mavsdk.{call, Call, Settings, MavsdkInterface, done, Act, go_on, lift}
use mpfc.Mavsdk.Commands.{
  direct_control_attitude, direct_control_manual, set_standard_mode, begin_direct_control,
  reset_direct_control, end_direct_control, set_armed, handle_state_change, start_process,
  control_process, handle_process_control, handle_configuration, move, handle_motion, by_family,
  respond, is_refusal, refuse, handle_command,
}
use mpfc.Mavsdk.Tasks.{answered}
use mpfc.Mavsdk.Guards.{
  is_running, Tracks, Guarded, go_on-Guarded, handle-Guarded, call-Guarded, if-Guarded,
  publish_flight_control-Guarded,
}

module _ (s : Settings) where
  pub lift-Guarded :
      {A B : Type 0} (r : Result A) (f : A → Act B) (g : MavsdkInterface)
      → Tracks g
      → ((a : A) → Guarded s (f a g))
      → Guarded s (go_on f (lift r g))
  unfolding go_on
  lift-Guarded (ok a) f g t next = next a
  lift-Guarded (err e) f g t next = t

  set_standard_mode-Guarded :
      (mode : String) (enabled : Bool) (g : MavsdkInterface)
      → Tracks g
      → Guarded s (set_standard_mode mode enabled g)
  unfolding set_standard_mode
  set_standard_mode-Guarded mode false g t = t
  set_standard_mode-Guarded mode true g t = elim (Bool-cases (mode == "POSITION_HOLD")) [
    | inl hold ↦ rw hold (call-Guarded s Call.hold g tt (λ cs. refl) t)
    | inr other ↦ rw other t
  ]

  begin_direct_control-Guarded :
      (mode : String) (g : MavsdkInterface) → Tracks g → Guarded s (begin_direct_control s mode g)
  unfolding begin_direct_control
  begin_direct_control-Guarded mode g t = ground arith

  reset_direct_control-Guarded :
      (g : MavsdkInterface) → is_running g.completed ≡ false → Guarded s (reset_direct_control s g)
  unfolding reset_direct_control
  reset_direct_control-Guarded g still =
      publish_flight_control-Guarded s
        (λ f. record f { override_active = some false; attitude_setpoint = none })
        (record g {
          offboard_attitude_started = false;
          manual_control_started = false;
          direct_control_mode = none;
          control_override = none;
          control_override_updated_at = 0;
        })
        (sym still)

  stopped-Guarded :
      (r : Result (Unit {0})) (h : MavsdkInterface)
      → Tracks h
      → Guarded s (go_on (λ _. reset_direct_control s) (done r (answered Call.stop_offboard r h)))
  unfolding go_on
  stopped-Guarded (ok _) h t =
      reset_direct_control-Guarded (record h { completed = Call.stop_offboard ∷ h.completed }) refl
  stopped-Guarded (err e) h t = t

  end_direct_control-Guarded : (g : MavsdkInterface) → Tracks g → Guarded s (end_direct_control s g)
  unfolding end_direct_control
  end_direct_control-Guarded g t =
      if-Guarded s g.offboard_attitude_started
        (go_on (λ _. reset_direct_control s) (call Call.stop_offboard g)) (reset_direct_control s g)
        (λ started. (started, t, stopped-Guarded))
        (λ still. reset_direct_control-Guarded g (sym t ∙ still))

  set_armed-Guarded :
      (armed : Bool) (g : MavsdkInterface) → Tracks g → Guarded s (set_armed armed g)
  set_armed-Guarded true g t = call-Guarded s Call.arm g tt (λ cs. refl) t
  set_armed-Guarded false g t = call-Guarded s Call.disarm g tt (λ cs. refl) t

  handle_state_change-Guarded :
      (command : StateChange) (g : MavsdkInterface)
      → Tracks g
      → Guarded s (handle_state_change s command g)
  unfolding handle_state_change
  handle_state_change-Guarded command g t = elim (Bool-cases (command.property_name == "armed")) [
    | inl arming ↦ rw arming (
        lift-Guarded (wanted_armed command.operation command.value) set_armed g t
          (λ armed. set_armed-Guarded armed g t))
    | inr other ↦ rw other (elim (Bool-cases (command.property_name == "standard_flight_mode")) [
      | inl moding ↦ rw moding (
          lift-Guarded (metadata_scalar command.value) _ g t (λ raw.
            lift-Guarded (as_mode s.is_standard_mode raw) _ g t
              (λ mode. set_standard_mode-Guarded mode (not (is_disable command.operation)) g t)))
      | inr unknown ↦ rw unknown (ground arith)
    ])
  ]

  start_process-Guarded :
      (name : String) (g : MavsdkInterface) → Tracks g → Guarded s (start_process s name g)
  unfolding start_process
  start_process-Guarded name g t = elim (Bool-cases (name == "takeoff")) [
    | inl holds ↦ rw holds (call-Guarded s Call.takeoff g tt (λ cs. refl) t)
    | inr fails ↦ rw fails (elim (Bool-cases (name == "land")) [
      | inl holds ↦ rw holds (call-Guarded s Call.land g tt (λ cs. refl) t)
      | inr fails ↦ rw fails (elim (Bool-cases (name == "return_to_launch")) [
        | inl holds ↦ rw holds (call-Guarded s Call.return_to_launch g tt (λ cs. refl) t)
        | inr fails ↦ rw fails (elim (Bool-cases (name == "direct_control.attitude_thrust")) [
          | inl holds ↦ rw holds (begin_direct_control-Guarded direct_control_attitude g t)
          | inr fails ↦ rw fails (elim (Bool-cases (name == "direct_control.manual_axis")) [
            | inl holds ↦ rw holds (begin_direct_control-Guarded direct_control_manual g t)
            | inr fails ↦ rw fails t
          ])
        ])
      ])
    ])
  ]

  control_process-Guarded :
      (o : ProcessOperation) (name : String) (g : MavsdkInterface)
      → Tracks g
      → Guarded s (control_process s o name g)
  unfolding control_process
  control_process-Guarded ProcessOperation.start name g t = start_process-Guarded name g t
  control_process-Guarded ProcessOperation.halt name g t =
      elim (Bool-cases (name == "direct_control")) [
        | inl holds ↦ rw holds (end_direct_control-Guarded g t)
        | inr fails ↦ rw fails t
      ]
  control_process-Guarded ProcessOperation.other_process name g t = t

  handle_configuration-Guarded :
      (command : Configuration) (g : MavsdkInterface)
      → Tracks g
      → Guarded s (handle_configuration s command g)
  unfolding handle_configuration
  handle_configuration-Guarded command g t =
      elim (Bool-cases
        (is_set_parameter command.operation && command.parameter_name == "takeoff_altitude_m")) [
          | inl holds ↦ rw holds (
              lift-Guarded (metadata_scalar command.value) _ g t (λ raw.
                lift-Guarded (as_number raw) _ g t (λ altitude.
                  call-Guarded s (Call.set_takeoff_altitude altitude) g tt (λ cs. refl) t)))
          | inr fails ↦ rw fails t
        ]

  move-Guarded :
      (body : Value) (o : MotionOperation) (g : MavsdkInterface)
      → Tracks g
      → Guarded s (move s body o g)
  unfolding move
  move-Guarded body MotionOperation.move_to g t =
      lift-Guarded
        (s.readers.goto_command_to_fields body g.last_abs_alt_m g.last_rel_alt_m g.last_attitude)
        (λ fields. call (Call.goto_location fields)) g t
        (λ fields. call-Guarded s (Call.goto_location fields) g tt (λ cs. refl) t)
  move-Guarded body MotionOperation.maintain g t = call-Guarded s Call.hold g tt (λ cs. refl) t
  move-Guarded body MotionOperation.halt_motion g t = call-Guarded s Call.hold g tt (λ cs. refl) t
  move-Guarded body MotionOperation.other_motion g t = t

  by_family-Guarded :
      (f : CommandFamily) (body : Value) (g : MavsdkInterface)
      → Tracks g
      → Guarded s (by_family s f body g)
  unfolding by_family handle_process_control handle_motion
  by_family-Guarded CommandFamily.state_change body g t =
      handle_state_change-Guarded (s.readers.state_change body) g t
  by_family-Guarded CommandFamily.process_control body g t =
      let command = s.readers.process_control body in
      control_process-Guarded command.operation (process_name_of command) g t
  by_family-Guarded CommandFamily.configuration body g t =
      handle_configuration-Guarded (s.readers.configuration body) g t
  by_family-Guarded CommandFamily.motion body g t =
      move-Guarded body (s.readers.motion body).operation g t
  by_family-Guarded CommandFamily.resource body g t = t
  by_family-Guarded CommandFamily.execution body g t = t
  by_family-Guarded (CommandFamily.other_command name) body g t = t

  refuse-Guarded :
      (request_id action : String) (e : Error) (g : MavsdkInterface)
      → Tracks g
      → Guarded s (refuse request_id action e g)
  unfolding refuse respond
  refuse-Guarded request_id action e g t = elim (Bool-cases (is_refusal e)) [
    | inl holds ↦ rw holds t
    | inr fails ↦ rw fails t
  ]

  pub handle_command-Guarded :
      (request : Value) (g : MavsdkInterface) → Tracks g → Guarded s (handle_command s request g)
  unfolding handle_command respond
  handle_command-Guarded request g t =
      elim (Result-cases (decode_occid_command s.codec s.readers.show request)) [
        | inl (e, f) ↦ rw (f, handle_command) t
        | inr ((request_id, command), f) ↦
            rw (f, handle_command)
              (handle-Guarded s (refuse request_id (family_name command.family)) _
                (go_on-Guarded s _ (by_family s command.family command.body g)
                  (by_family-Guarded command.family command.body g t) (λ a h t'. t'))
                (λ e h t'. refuse-Guarded request_id (family_name command.family) e h t'))
      ]
