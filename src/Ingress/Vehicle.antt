-- ===== src/Ingress/Vehicle.antt =====
-- Waiting for the vehicle while `OCCID/IN` is served, and the preparation of a move.
use mpfc.Prelude.{
  ℕ, ◌+◌, ◌*◌, String, Bool, true, false, not, ◌&&◌, Option, none, some, List, [], ◌∷◌, ◌++◌,
  nat_equality, string_equality, pair_equality, ◌==◌, ltb, leb, if◌then◌else◌, is_some,
}
use mpfc.Exec.{ErrorClass, Error, error, Result, ok, err}
use mpfc.Prelude.Int.{ℤ, pos, ltb_ℤ, pos_part}
use mpfc.Ingress.{GlobalPosition, LocationState, UavCommand, Settings, ExecutionIngress}
use mpfc.Ingress.Store.{Inbound, ingest_occid, reject_all}

-- The flight control state, as far as it is read.
pub record Flight : Type 0 where
  pub armed : Bool
  pub in_air : Bool
  pub arm_ready : Option Bool
  pub takeoff_ready : Option Bool

-- One turn of a waiting loop: the clock, the state that the local bus shows, the response to the
-- command that was sent last, if it is there (an error where it does not say `ok`), and what the pump
-- of the turn receives on `OCCID/IN` or raises.
pub record Turn : Type 0 where
  pub clock : ℕ
  pub location : Option LocationState
  pub flight : Option Flight
  pub response : Option (Result (Unit {0}))
  pub received : Result (Option Inbound)

pub record World : Type 0 where
  pub ingress : ExecutionIngress
  pub script : List Turn

-- A method that may wait and may raise; `none` where the turns end before it does.
abbrev pub Move : Type 0 → Type 0
Move A = World → Option (Result A × World)

infixl 5 ◌>>=◌ ◌>>◌
abbrev pub ◌>>=◌ : {A B : Type 0} → Move A → (A → Move B) → Move B
◌>>=◌ m f w = elim (m w) [
  | none ↦ none
  | some (ok a, w') ↦ f a w'
  | some (err e, w') ↦ some (err e, w')
]

abbrev pub ◌>>◌ : {B : Type 0} → Move (Unit {0}) → Move B → Move B
m >> n = m >>= λ _. n

abbrev pub pure : {A : Type 0} → A → Move A
pure a w = some (ok a, w)

abbrev pub fail : {A : Type 0} → Error → Move A
fail e w = some (err e, w)

abbrev pub lift : {A : Type 0} → Result A → Move A
lift r w = some (r, w)

abbrev pub change : (ExecutionIngress → ExecutionIngress) → Move (Unit {0})
change f w = some (ok tt, record w { ingress = f w.ingress })

-- What the local bus shows now, which is the next turn's state.
abbrev pub peek : Move Turn
peek w = elim w.script [ [] ↦ none | t ∷ _ ↦ some (ok t, w) ]

-- `_pump_with_ingress`: what becomes ready while the node works is refused.
unfoldable pub pump_with_ingress :
    Settings → Result (Option Inbound) → ExecutionIngress → Result (Unit {0}) × ExecutionIngress
pump_with_ingress s (err e) g = (err e, g)
pump_with_ingress s (ok none) g = (ok tt, g)
pump_with_ingress s (ok (some m)) g =
    let (result, g') = ingest_occid s m g in
    elim result [ err e ↦ (err e, g') | ok remotes ↦ (ok tt, reject_all remotes g') ]

-- The loop of `_wait_response`, `_wait_for_location` and `_wait_until`: what `check` finds ends it.
unfoldable pub until :
    {A : Type 0}
    → Settings
    → (Turn → Option (Result A))
    → ℕ
    → Error
    → List Turn
    → ExecutionIngress
    → Option (Result A × World)
until s check deadline timed_out [] g = none
until s check deadline timed_out (t ∷ ts) g =
    let (pumped, g') = pump_with_ingress s t.received g in
    elim (check t) [
      | some result ↦ some (result, record { ingress = g; script = ts })
      | none ↦ elim (ltb deadline t.clock) [
        | true ↦ some (err timed_out, record { ingress = g; script = ts })
        | false ↦ elim pumped [
          | err e ↦ some (err e, record { ingress = g'; script = ts })
          | ok _ ↦ until s check deadline timed_out ts g'
        ]
      ]
    ]

-- The deadline counts from the clock at the first turn.
unfoldable pub wait : {A : Type 0} → Settings → (Turn → Option (Result A)) → ℕ → String → Move A
wait s check timeout text = peek >>= λ first w.
    until s check (first.clock + timeout) (error ErrorClass.runtime_error text) w.script w.ingress

-- `uav.execute`: a command is sent, and its response is waited for.
unfoldable pub execute : Settings → UavCommand → Move (Unit {0})
unfolding wait until
execute s command = do
  change (λ g. record g { commands = g.commands ++ command ∷ [] })
  wait s (λ t. t.response) s.response_timeout "timeout waiting for UAV result"

abbrev pub holds : (Turn → Bool) → Turn → Option (Result (Unit {0}))
holds p t = if p t then some (ok tt) else none

abbrev pub positioned : Option LocationState → Option LocationState
positioned none = none
positioned (some l) = if is_some l.position then some l else none

abbrev pub located : Turn → Option (Result LocationState)
located t = elim (positioned t.location) [ none ↦ none | some l ↦ some (ok l) ]

-- `_wait_for_location`
unfoldable pub wait_for_location : Settings → Move LocationState
unfolding wait until
wait_for_location s =
    wait s located s.state_timeout "timed out waiting for UAV LocationState.position"

abbrev pub flight_is : (Flight → Bool) → Turn → Bool
flight_is p t = elim t.flight [ none ↦ false | some f ↦ p f ]

abbrev pub is_true : Option Bool → Bool
is_true none = false
is_true (some b) = b

-- `_relative_altitude`
unfoldable pub relative_altitude : Turn → Option ℤ
relative_altitude t = elim t.location [
  | none ↦ none
  | some l ↦ elim l.altitude [
    | none ↦ none
    | some a ↦ if a.relative_datum == "RELATIVE" then a.relative_m else none
  ]
]

-- Whether a relative altitude is at least a fraction, in thousandths, of a positive altitude.
abbrev pub reached : ℤ → ℕ → Option ℤ → Bool
reached takeoff_m fraction none = false
reached takeoff_m fraction (some m) =
    not (ltb_ℤ m (pos 0)) && leb (pos_part takeoff_m * fraction) (pos_part m * 1000)

-- `destination.alt` where it is above ground and lower than the configured altitude
abbrev pub takeoff_altitude_for : Settings → GlobalPosition → ℤ
takeoff_altitude_for s d =
    if d.alt_frame == "RELATIVE" && ltb_ℤ (pos 0) d.alt && ltb_ℤ d.alt s.takeoff_altitude
    then d.alt
    else s.takeoff_altitude

-- The loop `while time.monotonic() < deadline` behind a take-off.
unfoldable pub settle :
    Settings → ℕ → List Turn → ExecutionIngress → Option (Result (Unit {0}) × World)
settle s deadline [] g = none
settle s deadline (t ∷ ts) g =
    let (pumped, g') = pump_with_ingress s t.received g in
    elim (ltb t.clock deadline) [
      | false ↦ some (ok tt, record { ingress = g; script = ts })
      | true ↦ elim pumped [
        | err e ↦ some (err e, record { ingress = g'; script = ts })
        | ok _ ↦ settle s deadline ts g'
      ]
    ]

abbrev pub post_takeoff : Settings → Move (Unit {0})
post_takeoff s =
    if s.post_takeoff_wait == 0
    then pure tt
    else peek >>= λ first w. settle s (first.clock + s.post_takeoff_wait) w.script w.ingress

abbrev pub wait_until : Settings → (Turn → Bool) → String → Move (Unit {0})
wait_until s p text = wait s (holds p) s.state_timeout text

abbrev pub arm_if_needed : Settings → Move (Unit {0})
arm_if_needed s = peek >>= λ now. if flight_is (λ f. f.armed) now then pure tt else do
  execute s UavCommand.arm
  wait_until s (flight_is (λ f. f.armed)) "timed out waiting for UAV armed state"

-- The part of `_prepare_vehicle_for_move` that takes off.
unfoldable pub take_off : Settings → ℤ → Move (Unit {0})
unfolding execute settle relative_altitude
take_off s altitude = do
  execute s (UavCommand.takeoff_altitude altitude)
  wait_until s (flight_is (λ f. is_true f.arm_ready)) "timed out waiting for UAV arm readiness"
  arm_if_needed s
  wait_until s (flight_is (λ f. f.armed && is_true f.takeoff_ready))
      "timed out waiting for UAV takeoff readiness"
  execute s UavCommand.takeoff
  wait_until s
      (λ t.
        flight_is (λ f. f.in_air) t && reached altitude s.takeoff_fraction (relative_altitude t))
      "timed out waiting for UAV takeoff"
  post_takeoff s

-- `_prepare_vehicle_for_move`
unfoldable pub prepare_vehicle_for_move : Settings → GlobalPosition → Move (Unit {0})
unfolding take_off
prepare_vehicle_for_move s destination = peek >>= λ now.
    let altitude = takeoff_altitude_for s destination in
    if flight_is (λ f. f.in_air) now
    then pure tt
    else if not s.auto_takeoff_for_move
    then fail (
        error ErrorClass.runtime_error
          "TaskManeuver/MOVE requires an airborne vehicle when auto_takeoff_for_move is false")
    else if not (ltb_ℤ (pos 0) altitude)
    then fail (
        error ErrorClass.runtime_error
          "TaskManeuver/MOVE automatic takeoff altitude must be positive")
    else take_off s altitude
