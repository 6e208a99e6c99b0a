-- ===== src/Msp/Flight.antt =====
-- The take-off and the landing of the adapter: loops that wait for an altitude.
use mpfc.Prelude.{
  ℕ, ◌+◌, Bool, true, false, not, Option, none, some, List, [], ◌∷◌, nat_equality, string_equality,
  pair_equality, ltb,
}
use mpfc.Exec.{ErrorClass, Error, error, Result, ok, err}
use mpfc.Prelude.Int.{ℤ, ltb_ℤ}
use mpfc.Msp.{
  Settings, MspInterface, Tick, World, Act, Job, ◌>>◌, lift, unsupported, at_once, afterwards, tell,
}
use mpfc.Msp.Channels.{arm_mode_name, apply_mode, clear_mode, activate_override, set_throttle}

-- What the state at a turn shows.
abbrev pub see : Tick → MspInterface → MspInterface
see t g = record g { stop_event = t.stopped; latest_altitude = t.altitude }

-- `altitude_m is not None and altitude_m >= target`, and its landing twin
unfoldable pub has_climbed : ℤ → Option ℤ → Bool
has_climbed target none = false
has_climbed target (some altitude) = not (ltb_ℤ altitude target)

unfoldable pub has_landed : ℤ → Option ℤ → Bool
has_landed threshold none = false
has_landed threshold (some altitude) = not (ltb_ℤ threshold altitude)

-- What a turn does behind the throttle: the altitude is looked at before the deadline.
abbrev pub watch : Bool → Bool → Act (Unit {0}) → Error → Job → Job
watch true late finish timed_out more = at_once finish
watch false true finish timed_out more = at_once (lift (err timed_out))
watch false false finish timed_out more = more

-- A loop that sets a throttle turn by turn until the altitude is reached, which `arrived` tells and
-- `finish` follows. It ends without an error where the adapter is stopped.
unfoldable pub throttle_until :
    Settings
    → ℕ
    → (Option ℤ → Bool)
    → Act (Unit {0})
    → ℕ
    → Error
    → List Tick
    → MspInterface
    → Option (Result (Unit {0}) × World)
unfolding set_throttle tell
throttle_until s throttle arrived finish deadline timed_out [] g = none
throttle_until s throttle arrived finish deadline timed_out (t ∷ ts) g =
    let more : Job = λ w. throttle_until s throttle arrived finish deadline timed_out ts w.node in
    elim t.stopped [
      | true ↦ some (ok tt, record { node = see t g; script = ts })
      | false ↦
          afterwards (set_throttle s throttle)
            (watch (arrived t.altitude) (ltb deadline t.clock) finish timed_out more)
            (record { node = see t g; script = ts })
    ]

abbrev pub takeoff_timed_out : Error
takeoff_timed_out = error ErrorClass.unsupported_command "takeoff timeout"

abbrev pub landing_timed_out : Error
landing_timed_out = error ErrorClass.unsupported_command "landing timeout"

-- The loop of `_takeoff`, which begins at the clock of the first turn.
unfoldable pub climb : Settings → ℤ → List Tick → MspInterface → Option (Result (Unit {0}) × World)
unfolding throttle_until has_climbed
climb s target [] g = none
climb s target (t ∷ ts) g =
    throttle_until s s.takeoff_throttle (has_climbed target) (set_throttle s s.hover_throttle)
      (t.clock + s.takeoff_timeout) takeoff_timed_out (t ∷ ts) g

-- What both do first.
unfoldable pub arm_for_flight : Settings → Act (Unit {0})
unfolding apply_mode activate_override
arm_for_flight s = do activate_override s; apply_mode s arm_mode_name

-- `_takeoff`
unfoldable pub takeoff : Settings → Job
unfolding climb arm_for_flight
takeoff s w = elim w.node.takeoff_altitude_m [
  | none ↦ at_once (unsupported "takeoff altitude not set") w
  | some target ↦ afterwards (arm_for_flight s) (λ w'. climb s target w'.script w'.node) w
]

-- What follows the landing.
unfoldable pub touch_down : Settings → Act (Unit {0})
unfolding set_throttle clear_mode
touch_down s = do set_throttle s s.rx_min; clear_mode s arm_mode_name

-- The loop of `_land`.
unfoldable pub descend :
    Settings → ℕ → List Tick → MspInterface → Option (Result (Unit {0}) × World)
unfolding throttle_until has_landed touch_down
descend s start script g =
    throttle_until s s.landing_throttle (has_landed s.in_air_alt_threshold) (touch_down s)
      (start + s.landing_timeout) landing_timed_out script g

-- `_land`, which reads the clock before it makes its calls.
unfoldable pub land_from : Settings → List Tick → MspInterface → Option (Result (Unit {0}) × World)
unfolding descend arm_for_flight
land_from s [] g = none
land_from s (t ∷ ts) g =
    afterwards (arm_for_flight s) (λ w. descend s t.clock w.script w.node)
      (record { node = g; script = t ∷ ts })

unfoldable pub land : Settings → Job
unfolding land_from
land s w = land_from s w.script w.node
