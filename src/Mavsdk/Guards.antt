-- ===== src/Mavsdk/Guards.antt =====
-- What every coroutine of the adapter keeps at its calls, whatever happens while it waits.
use mpfc.Prelude.{
  ◌≤◌, String, ◌≡◌, refl, if◌then◌else◌, sym, ◌∙◌, inl, inr, Bool, true, false, List, [], ◌∷◌,
  nat_equality, string_equality, pair_equality, Bool-cases,
}
use mpfc.Exec.{Error, Result, ok, err, Result-cases}
use mpfc.Json.{Value}
use mpfc.Scheduler.{update}
use mpfc.Dict.{contains}
use mpfc.Mavsdk.{
  Call, FlightControl, Settings, MavsdkInterface, Co, done, await, Act, go_on, call, handle,
}
use mpfc.Mavsdk.Commands.{publish_model, publish_flight_control, direct_control_attitude}
use mpfc.Mavsdk.Direct.{is_mode, override_is_fresh}
use mpfc.Mavsdk.Tasks.{answered}

-- Whether the last of the offboard calls that went through is a start.
abbrev pub is_running : List Call → Bool
is_running [] = false
is_running (Call.start_offboard ∷ cs) = true
is_running (Call.stop_offboard ∷ cs) = false
is_running (_ ∷ cs) = is_running cs

abbrev pub Tracks : MavsdkInterface → Type 0
Tracks g = g.offboard_attitude_started ≡ is_running g.completed

-- In which states a call may be made. A throttle is in two-thousandths of [0, 1].
abbrev pub IsPermitted : Settings → Call → MavsdkInterface → Type 0
IsPermitted s (Call.set_attitude fields) g =
    is_mode direct_control_attitude g.direct_control_mode ≡ true
IsPermitted s Call.start_offboard g =
    (g.offboard_attitude_started ≡ false)
    × ((fields : Value) × (rest : List Call) × (g.completed ≡ Call.set_attitude fields ∷ rest))
IsPermitted s Call.stop_offboard g = g.offboard_attitude_started ≡ true
IsPermitted s (Call.set_manual_control_input pitch roll throttle yaw) g =
    (override_is_fresh s g ≡ true) × (throttle ≤ 2000)
IsPermitted s Call.start_altitude_control g = g.manual_control_started ≡ false
IsPermitted s _ g = Unit

pub answered-Tracks :
    (c : Call)
    → ((cs : List Call) → is_running (c ∷ cs) ≡ is_running cs)
    → (r : Result (Unit {0})) (h : MavsdkInterface) → Tracks h
    → Tracks (answered c r h)
answered-Tracks c plain (ok _) h t = t ∙ sym (plain h.completed)
answered-Tracks c plain (err e) h t = t

module _ (s : Settings) where
  -- Each call is permitted in its state; and the flag is right at each call and in the end, if it is
  -- right when the answers come.
  abbrev pub Guarded : {A : Type 0} → Co A → Type 0
  Guarded (done r g) = Tracks g
  Guarded (await c g k) =
      IsPermitted s c g
      × Tracks g
      × ((r : Result (Unit {0})) (h : MavsdkInterface) → Tracks h → Guarded (k r (answered c r h)))

  pub if-Guarded :
      {A : Type 0} (b : Bool) (m n : Co A)
      → (b ≡ true → Guarded m)
      → (b ≡ false → Guarded n)
      → Guarded (if b then m else n)
  if-Guarded true m n first second = first refl
  if-Guarded false m n first second = second refl

  pub go_on-Guarded :
      {A B : Type 0} (f : A → Act B) (m : Co A)
      → Guarded m
      → ((a : A) (h : MavsdkInterface) → Tracks h → Guarded (f a h))
      → Guarded (go_on f m)
  unfolding go_on
  go_on-Guarded f (done (ok a) g) t next = next a g t
  go_on-Guarded f (done (err e) g) t next = t
  go_on-Guarded f (await c g k) (p, t, later) next =
      (p, t, λ r h t'. go_on-Guarded f (k r (answered c r h)) (later r h t') next)

  pub handle-Guarded :
      (f : Error → Act (Unit {0})) (m : Co (Unit {0}))
      → Guarded m
      → ((e : Error) (h : MavsdkInterface) → Tracks h → Guarded (f e h))
      → Guarded (handle f m)
  unfolding handle
  handle-Guarded f (done (ok a) g) t next = t
  handle-Guarded f (done (err e) g) t next = next e g t
  handle-Guarded f (await c g k) (p, t, later) next =
      (p, t, λ r h t'. handle-Guarded f (k r (answered c r h)) (later r h t') next)

  -- A call that neither starts nor stops the offboard mode.
  pub call-Guarded :
      (c : Call) (g : MavsdkInterface)
      → IsPermitted s c g
      → ((cs : List Call) → is_running (c ∷ cs) ≡ is_running cs)
      → Tracks g
      → Guarded (call c g)
  call-Guarded c g p plain t = (p, t, answered-Tracks c plain)

  pub publish_model-Guarded :
      (key : String) (model : Value) (g : MavsdkInterface)
      → Tracks g
      → Guarded (publish_model key model g)
  unfolding publish_model
  publish_model-Guarded key model g t = elim (Bool-cases (contains key g.state_scheduler.topics)) [
    | inl known ↦ elim (Result-cases (update key model g.state_scheduler)) [
      | inl (e, f) ↦ rw known (rw (f, publish_model) t)
      | inr (scheduler, f) ↦ rw known (rw (f, publish_model) t)
    ]
    | inr other ↦ rw other t
  ]

  pub publish_flight_control-Guarded :
      (updates : FlightControl → FlightControl) (g : MavsdkInterface)
      → Tracks g
      → Guarded (publish_flight_control s updates g)
  unfolding publish_flight_control
  publish_flight_control-Guarded updates g t =
      let flight_control = updates g.flight_control in
      publish_model-Guarded "flight_control" (s.readers.pack_flight_control flight_control)
        (record g { flight_control = flight_control }) t
