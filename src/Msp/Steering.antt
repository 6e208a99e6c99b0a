-- ===== src/Msp/Steering.antt =====
-- What the override thread sends, and the PWM values of the modes.
use mpfc.Semantics.{AuxChannel, ControlOverride}
use mpfc.Prelude.{
  ℕ, ◌+◌, ◌/◌, ◌≤◌, String, ◌≡◌, refl, sym, ap, ◌∙◌, ◌⊎◌, inl, inr, Bool, true, false, ◌&&◌, Option,
  none, some, List, [], ◌∷◌, ◌++◌, arith, nat_equality, string_equality, pair_equality, ◌==◌,
  beq→eq, ltb, if◌then◌else◌, is_some, ltb→ge, Bool-cases, Option-cases, All,
}
use mpfc.Dict.{Dict, lookup, insert}
use mathlib.Core.Path.{subst}
use mpfc.Dict.Laws.{lookup-insert}
use mpfc.Exec.{Result}
use mpfc.Prelude.Int.{ℤ}
use mpfc.Msp.{ModeChannel, ModeRange, FlightControl, set_rc_channels, Settings, MspInterface}
use mpfc.Msp.Channels.{
  get_elem?, build_mode_channels, is_manual, override_is_fresh, put_axis, put_aux,
  build_override_channels,
}
use mpfc.Msp.Loops.{is_active, send_override, override_turn}

module _ (s : Settings) where
  -- What the conversion of the OCCID SDK promises.
  abbrev pub ScalesInto : Type 0
  ScalesInto =
      (value : ℤ)
      → (s.rx_min ≤ s.normalized_to_pwm value s.rx_min s.rx_max)
        × (s.normalized_to_pwm value s.rx_min s.rx_max ≤ s.rx_max)

  abbrev pub InRange : String × ℕ → Type 0
  InRange (name, pwm) = (s.rx_min ≤ pwm) × (pwm ≤ s.rx_max)

  insert-InRange :
      (name : String) (pwm : ℕ) (channels : Dict String ℕ)
      → InRange (name, pwm)
      → All InRange channels
      → All InRange (insert name pwm channels)
  unfolding insert
  insert-InRange name pwm [] h k = (h, tt)
  insert-InRange name pwm ((n, p) ∷ rest) h k = elim (Bool-cases (n == name)) [
    | inl same ↦ rw same (h, k.1)
    | inr other ↦ rw other (k.0, insert-InRange name pwm rest h k.1)
  ]

  module _ (scales : ScalesInto) where
    put_axis-InRange :
        (name : String) (value : Option ℤ) (channels : Dict String ℕ)
        → All InRange channels
        → All InRange (put_axis s name value channels)
    unfolding put_axis
    put_axis-InRange name none channels h = h
    put_axis-InRange name (some v) channels h = insert-InRange name _ channels (scales v) h

    put_aux-InRange :
        (aux : List AuxChannel) (channels : Dict String ℕ)
        → All InRange channels
        → All InRange (put_aux s aux channels)
    unfolding put_aux
    put_aux-InRange [] channels h = h
    put_aux-InRange (a ∷ aux) channels h =
        elim (Option-cases (get_elem? s.chmap (4 + a.channel_index))) [
          | inl missing ↦ rw missing (put_aux-InRange aux channels h)
          | inr (name, found) ↦
              rw found (put_aux-InRange aux _ (put_axis-InRange name a.value channels h))
        ]

    build_override_channels-InRange :
        (override : Option ControlOverride) → All InRange (build_override_channels s override)
    unfolding build_override_channels
    build_override_channels-InRange none = tt
    build_override_channels-InRange (some o) = put_aux-InRange o.aux _ (
        put_axis-InRange s.throttle_channel o.throttle _ (
          put_axis-InRange s.yaw_channel o.yaw _ (
            put_axis-InRange s.pitch_channel o.pitch _
              (put_axis-InRange s.roll_channel o.roll [] tt))))

    abbrev pub IsPermitted : ℕ → ℕ → MspInterface → ℕ × Result (Unit {0}) × MspInterface → Type 0
    IsPermitted now last g o =
        (o.2.sent ≡ g.sent)
        ⊎ ((channels : Dict String ℕ) × (f : FlightControl) × (o.2.sent
              ≡ g.sent ++ set_rc_channels channels ∷ [])
            × (o.0 ≡ now)
            × (last + s.override_send_interval ≤ now)
            × (channels ≡ build_override_channels s g.control_override)
            × All InRange channels
            × (is_some g.control_override ≡ true)
            × (is_manual g.direct_control_mode ≡ true)
            × (now ≤ g.control_override_updated_at + s.control_override_timeout)
            × (g.latest_flight_control ≡ some f)
            × (f.override_active ≡ true))

    is_active-flight :
        (o : Option FlightControl)
        → is_active o ≡ true
        → (f : FlightControl) × (o ≡ some f) × (f.override_active ≡ true)
    is_active-flight none h = absurd (ground (arith, h))
    is_active-flight (some f) h = (f, refl, h)

    send_override-IsPermitted :
        (now last : ℕ) (g : MspInterface) (channels : Dict String ℕ)
        → channels ≡ build_override_channels s g.control_override
        → last + s.override_send_interval ≤ now
        → (override_is_fresh s now g && is_active g.latest_flight_control) ≡ true
        → IsPermitted now last g (send_override s now channels g)
    unfolding send_override override_is_fresh
    send_override-IsPermitted now last g [] built due allowed = inl refl
    send_override-IsPermitted now last g (channel ∷ rest) built due allowed =
        let (f, flight, active) =
          is_active-flight g.latest_flight_control (ground (arith, allowed)) in
        inr (
          channel ∷ rest,
          f,
          refl,
          refl,
          due,
          built,
          subst (All InRange) (sym built) (build_override_channels-InRange g.control_override),
          ground (arith, allowed),
          ground (arith, allowed),
          ground (arith, allowed),
          flight,
          active,
        )

    -- A turn of the override thread calls the flight controller at most once; and then an interval behind
    -- the last time, with the channels of a sample that is held, while the manual process runs, the sample
    -- is within its timeout and the flight controller reports the override as active, and with every
    -- channel between the receiver's limits, where the conversion keeps to them.
    pub override_turn-IsPermitted :
        (now last : ℕ) (g : MspInterface) → IsPermitted now last g (override_turn s now last g)
    unfolding override_turn
    override_turn-IsPermitted now last g =
        elim (Bool-cases (ltb now (last + s.override_send_interval))) [
          | inl early ↦ rw early (inl refl)
          | inr due ↦
              rw due
                (elim (Bool-cases
                  (override_is_fresh s now g && is_active g.latest_flight_control)) [
                    | inl allowed ↦ rw allowed (
                        send_override-IsPermitted now last g
                          (build_override_channels s g.control_override) refl
                          (omega (arith, ltb→ge _ _ due)) allowed)
                    | inr idle ↦ rw idle (inl refl)
                  ])
        ]

-- The PWM value lies in a range that a mode has among the entries.
abbrev pub FitsRange : String → ModeChannel → List ModeRange → Type 0
FitsRange mode c [] = ⊥
FitsRange mode c (e ∷ es) =
    ((e.mode ≡ mode) × (e.pwm_start ≤ c.pwm) × (c.pwm ≤ e.pwm_end)) ⊎ FitsRange mode c es

from_if :
    (b : Bool) {v c : ModeChannel} {o : Option ModeChannel}
    → (if b then some v else o) ≡ some c
    → ((b ≡ true) × (v ≡ c)) ⊎ (o ≡ some c)
from_if true h = inl (refl, ground (arith, h))
from_if false h = inr h

build-FitsRange :
    (show : ℕ → String) (chmap : List String) (entries : List ModeRange)
    (channels : Dict String ModeChannel) (mode : String) (c : ModeChannel)
    → All (λ e. e.pwm_start ≤ e.pwm_end) entries
    → lookup mode (build_mode_channels show chmap entries channels) ≡ some c
    → (lookup mode channels ≡ some c) ⊎ FitsRange mode c entries
unfolding build_mode_channels
build-FitsRange show chmap [] channels mode c ordered found = inl found
build-FitsRange show chmap (e ∷ es) channels mode c ordered found =
    elim (build-FitsRange show chmap es _ mode c ordered.1 found) [
      | inr later ↦ inr (inr later)
      | inl now ↦
          elim (from_if (e.mode == mode) (sym (lookup-insert e.mode mode _ channels) ∙ now)) [
            | inl (same, made) ↦
                let value : (e.pwm_start + e.pwm_end) / 2 ≡ c.pwm =
                  ap (λ (m : ModeChannel). m.pwm) made in
                inr (
                  inl (
                    beq→eq e.mode mode same,
                    omega (arith, value, ordered.0),
                    omega (arith, value, ordered.0),
                  ))
            | inr before ↦ inl before
          ]
    ]

-- Where each mode range is in order, a mode that is configured is switched on by a PWM value inside one of
-- its ranges.
pub build_mode_channels-FitsRange :
    (show : ℕ → String) (chmap : List String) (entries : List ModeRange) (mode : String)
    (c : ModeChannel)
    → All (λ e. e.pwm_start ≤ e.pwm_end) entries
    → lookup mode (build_mode_channels show chmap entries []) ≡ some c
    → FitsRange mode c entries
unfolding lookup
build_mode_channels-FitsRange show chmap entries mode c ordered found =
    elim (build-FitsRange show chmap entries [] mode c ordered found) [
      | inl absent ↦ absurd (ground (arith, absent))
      | inr fits ↦ fits
    ]
