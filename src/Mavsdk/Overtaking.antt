-- ===== src/Mavsdk/Overtaking.antt =====
-- A stop of the direct control process that overtakes a setpoint.
use mpfc.Prelude.{
  ◌≡◌, refl, ap, ◌∙◌, inl, inr, Bool, true, false, none, some, ◌∷◌, arith, nat_equality,
  string_equality, pair_equality, if◌then◌else◌, Bool-cases,
}
use mpfc.Dict.{contains, insert}
use mpfc.Scheduler.{update, add}
use mpfc.Exec.{Result, ok}
use mpfc.Json.{Value}
use mpfc.Occid.{InputFamily}
use mpfc.Mavsdk.{Call, FlightControl, Settings, MavsdkInterface, Co, done, await, go_on}
use mpfc.Mavsdk.Commands.{
  publish_model, publish_flight_control, direct_control_attitude, reset_direct_control,
  end_direct_control,
}
use mpfc.Mavsdk.Direct.{is_mode, start_offboard, take_setpoint, handle_input}
use mpfc.Mavsdk.Tasks.{answered}

if_false {ℓ} : {A : Type ℓ} (b : Bool) (x y : A) → b ≡ false → (if b then x else y) ≡ y
if_false true x y h = absurd (ground (arith, h))
if_false false x y h = refl

publish_flight_control-keeps :
    (s : Settings) (updates : FlightControl → FlightControl) (g : MavsdkInterface)
    → (h : MavsdkInterface) × (publish_flight_control s updates g ≡ done (ok tt) h)
      × (h.direct_control_mode ≡ g.direct_control_mode)
      × (h.completed ≡ g.completed)
      × (h.offboard_attitude_started ≡ g.offboard_attitude_started)
unfolding publish_flight_control publish_model update
publish_flight_control-keeps s updates g =
    let g' = record g { flight_control = updates g.flight_control } in
    let model = s.readers.pack_flight_control g'.flight_control in
    let scheduler = record g.state_scheduler {
      state = insert "flight_control" model g.state_scheduler.state;
      pending = add "flight_control" g.state_scheduler.pending;
    } in
    elim (Bool-cases (contains "flight_control" g.state_scheduler.topics)) [
      | inl known ↦ (
        record g' { state_scheduler = scheduler },
        rw (known, publish_model) refl,
        refl,
        refl,
        refl,
      )
      | inr other ↦ (g', rw (other, publish_model) refl, refl, refl, refl)
    ]

-- Where the attitude process is active, nothing is started and the setpoint converts: if a stop of the
-- direct control process is served while the setpoint waits for its call, the stop makes no call and
-- succeeds, and the setpoint's task, whose call then goes through, calls for the start of the offboard mode
-- in a state without an active process.
pub handle_input-overtaken :
    (s : Settings) (body fields : Value) (g : MavsdkInterface)
    → is_mode direct_control_attitude g.direct_control_mode ≡ true
    → g.offboard_attitude_started ≡ false
    → s.readers.attitude_setpoint_to_fields body ≡ ok fields
    → (k k' : Result (Unit {0}) → MavsdkInterface → Co (Unit {0})) × (h : MavsdkInterface)
      × (handle_input s InputFamily.control_attitude_setpoint body g
          ≡ await (Call.set_attitude fields) g k)
      × (end_direct_control s g ≡ done (ok tt) h)
      × (h.direct_control_mode ≡ none)
      × (h.completed ≡ g.completed)
      × (k (ok tt) (answered (Call.set_attitude fields) (ok tt) h)
          ≡ await Call.start_offboard (answered (Call.set_attitude fields) (ok tt) h) k')
unfolding take_setpoint handle_input end_direct_control reset_direct_control start_offboard go_on
handle_input-overtaken s body fields g active still converted =
    let blank = record g {
      offboard_attitude_started = false;
      manual_control_started = false;
      direct_control_mode = none;
      control_override = none;
      control_override_updated_at = 0;
    } in
    let shown : MavsdkInterface → Co (Unit {0}) =
      publish_flight_control s
        (λ f. record f { attitude_setpoint = some body; override_active = some true }) in
    let (h, ended, mode, calls, flag) =
      publish_flight_control-keeps s
        (λ f. record f { override_active = some false; attitude_setpoint = none }) blank in
    let h' = record h { completed = Call.set_attitude fields ∷ h.completed } in
    (
      (λ r h. go_on (λ _ g. go_on (λ _. shown) (start_offboard g)) (done r h)),
      (λ r h.
          go_on (λ _. shown)
            (go_on (λ _ h. done (ok tt) (record h { offboard_attitude_started = true }))
              (done r h))),
      h,
      rw (active, take_setpoint) (rw (converted, take_setpoint) refl),
      if_false g.offboard_attitude_started _ _ still ∙ ended,
      mode,
      calls,
      ap (go_on (λ _. shown)) (if_false h'.offboard_attitude_started _ _ flag),
    )
