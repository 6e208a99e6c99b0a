-- ===== src/Msp/Climb.antt =====
-- What a take-off and a landing that end without an error have done.
use mathlib.Core.List.{append_assoc, append-nil}
use mpfc.Prelude.{
  ℕ, suc, String, ◌≡◌, refl, sym, ap, ◌∙◌, ◌⊎◌, inl, inr, true, false, Option, none, some, List, [],
  ◌∷◌, ◌++◌, arith, nat_equality, string_equality, pair_equality, if◌then◌else◌, is_some,
  Option-cases,
}
use mpfc.Dict.{lookup}
use mpfc.Exec.{Result, ok, err}
use mpfc.Prelude.Int.{ℤ, ltb_ℤ}
use mpfc.Msp.{ModeChannel, Call, set_rc_channels, Settings, MspInterface, World, go_on, pure, tell}
use mpfc.Msp.Channels.{apply_mode, activate_override, arm_mode_name, override_mode_name}
use mpfc.Msp.Flight.{arm_for_flight}
use mpfc.Msp.Throttle.{replicate, throttle_call}

-- The call that switches a mode on, where it is configured.
abbrev pub switch_calls : Option ModeChannel → List Call
switch_calls none = []
switch_calls (some mode) = set_rc_channels ((mode.channel, mode.pwm) ∷ []) ∷ []

abbrev pub mode_calls : Settings → String → List Call
mode_calls s mode_name = switch_calls (lookup mode_name s.mode_channels)

abbrev pub arming_calls : Settings → List Call
arming_calls s = mode_calls s override_mode_name ++ mode_calls s arm_mode_name

module _ (s : Settings) where
  apply_mode-sent :
      (name : String) (g : MspInterface)
      → (apply_mode s name g).1.sent ≡ g.sent ++ mode_calls s name
  unfolding apply_mode tell
  apply_mode-sent name g = elim (Option-cases (lookup name s.mode_channels)) [
    | inl missing ↦ rw (missing, apply_mode) (sym (append-nil g.sent))
    | inr (mode, found) ↦ rw (found, apply_mode) refl
  ]

  activate_override-sent :
      (g : MspInterface)
      → (activate_override s g).1.sent ≡ g.sent ++ mode_calls s override_mode_name
  unfolding activate_override
  activate_override-sent g = elim (Option-cases (lookup override_mode_name s.mode_channels)) [
    | inl missing ↦ rw missing (sym (append-nil g.sent))
    | inr (mode, found) ↦
        ap
          (λ (o : Option ModeChannel).
            ((if is_some o then apply_mode s override_mode_name else pure tt) g).1.sent)
          found
        ∙ apply_mode-sent override_mode_name g
  ]

  pub arm_for_flight-sent :
      (g : MspInterface)
      → (arm_for_flight s g).0 ≡ ok tt
      → (arm_for_flight s g).1.sent ≡ g.sent ++ arming_calls s
  unfolding arm_for_flight
  arm_for_flight-sent g h =
      go (activate_override s g).0 (activate_override s g).1 h
      ∙ ap (λ calls. calls ++ mode_calls s arm_mode_name) (activate_override-sent g)
      ∙ append_assoc g.sent (mode_calls s override_mode_name) (mode_calls s arm_mode_name)
    where
      go :
          (r : Result (Unit {0})) (g' : MspInterface)
          → (go_on (λ _. apply_mode s arm_mode_name) r g').0 ≡ ok tt
          → (go_on (λ _. apply_mode s arm_mode_name) r g').1.sent
            ≡ g'.sent ++ mode_calls s arm_mode_name
      go (ok _) g' k = apply_mode-sent arm_mode_name g'
      go (err e) g' k = absurd (ground (arith, k))

  -- What a take-off that ended without an error has done.
  abbrev TookOff : ℤ → MspInterface → Option (Result (Unit {0}) × World) → Type 0
  TookOff target g none = Unit
  TookOff target g (some (err e, w)) = Unit
  TookOff target g (some (ok _, w)) =
      (w.node.stop_event ≡ true)
      ⊎ ((a : ℤ) × (k : ℕ) × (w.node.latest_altitude ≡ some a)
          × (ltb_ℤ a target ≡ false)
          × (w.node.sent
              ≡ g.sent
                ++ arming_calls s
                ++ replicate (suc k) (throttle_call s.takeoff_throttle)
                ++ throttle_call s.hover_throttle ∷ []))
