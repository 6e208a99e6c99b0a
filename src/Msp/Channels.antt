-- ===== src/Msp/Channels.antt =====
-- The RC channels that the adapter writes: modes on auxiliary channels, and the direct control input.
use mpfc.Semantics.{AuxChannel, ControlOverride}
use mpfc.Prelude.{
  ℕ, zero, suc, ◌+◌, ◌/◌, String, Bool, false, ◌&&◌, Option, none, some, List, [], ◌∷◌,
  nat_equality, string_equality, pair_equality, ◌==◌, leb, if◌then◌else◌, is_some,
}
use mpfc.Dict.{Dict, lookup, contains, insert}
use mpfc.Exec.{ErrorClass, Result, ok, raise}
use mpfc.Prelude.Int.{ℤ}
use mpfc.Text.{◌<>◌}
use mpfc.Msp.{
  ModeChannel, ModeRange, set_rc_channels, Settings, MspInterface, Act, ◌>>=◌, pure, lift,
  unsupported, tell,
}

unfoldable pub get_elem? {ℓ} : {A : Type ℓ} → List A → ℕ → Option A
get_elem? [] i = none
get_elem? (x ∷ xs) zero = some x
get_elem? (x ∷ xs) (suc i) = get_elem? xs i

-- The loop of `__init__` over the mode ranges; `show` is Python's `str` of a number.
unfoldable pub build_mode_channels :
    (ℕ → String) → List String → List ModeRange → Dict String ModeChannel → Dict String ModeChannel
unfolding get_elem?
build_mode_channels show chmap [] channels = channels
build_mode_channels show chmap (entry ∷ rest) channels =
    let channel_index = entry.aux_index + 4 in
    let name : String = elim (get_elem? chmap channel_index) [
      | some name ↦ name
      | none ↦ "ch" <> show (channel_index + 1)
    ] in
    build_mode_channels show chmap rest (
      insert entry.mode (record { channel = name; pwm = (entry.pwm_start + entry.pwm_end) / 2 })
        channels)

abbrev pub arm_mode_name : String
arm_mode_name = "ARM"

abbrev pub override_mode_name : String
override_mode_name = "MSP RC OVERRIDE"

abbrev pub direct_control_manual : String
direct_control_manual = "MANUAL_AXIS"

-- `_apply_mode`
unfoldable pub apply_mode : Settings → String → Act (Unit {0})
unfolding tell
apply_mode s mode_name = elim (lookup mode_name s.mode_channels) [
  | none ↦ unsupported ("mode " <> mode_name <> " not configured")
  | some mode ↦ tell s (set_rc_channels ((mode.channel, mode.pwm) ∷ []))
]

-- `_clear_mode`
unfoldable pub clear_mode : Settings → String → Act (Unit {0})
unfolding tell
clear_mode s mode_name = elim (lookup mode_name s.mode_channels) [
  | none ↦ unsupported ("mode " <> mode_name <> " not configured")
  | some mode ↦ tell s (set_rc_channels ((mode.channel, s.rx_min) ∷ []))
]

-- `_activate_override` and `_deactivate_override`
unfoldable pub activate_override : Settings → Act (Unit {0})
unfolding apply_mode
activate_override s =
    if contains override_mode_name s.mode_channels then apply_mode s override_mode_name else pure tt

unfoldable pub deactivate_override : Settings → Act (Unit {0})
unfolding clear_mode
deactivate_override s =
    if contains override_mode_name s.mode_channels then clear_mode s override_mode_name else pure tt

-- `_find_mode`
unfoldable pub find_mode : Settings → List String → Result String
find_mode s [] = raise ErrorClass.unsupported_command "none of native modes configured"
find_mode s (candidate ∷ rest) =
    if contains candidate s.mode_channels then ok candidate else find_mode s rest

-- `_standard_mode_native_name`, on the name of a member of `StandardFlightMode`
unfoldable pub standard_mode_native_name : Settings → String → Result String
unfolding find_mode
standard_mode_native_name s mode =
    if mode == "POSITION_HOLD"
    then find_mode s ("NAV POSHOLD" ∷ "POSHOLD" ∷ [])
    else if mode == "MISSION"
    then find_mode s ("NAV WP" ∷ "NAV_WP" ∷ [])
    else if mode == "ALTITUDE_HOLD"
    then find_mode s ("NAV ALTHOLD" ∷ "ALTHOLD" ∷ "ALT HOLD" ∷ [])
    else if mode == "CRUISE"
    then find_mode s ("NAV CRUISE" ∷ "CRUISE" ∷ [])
    else raise ErrorClass.unsupported_command "MSP mode command does not map standard mode"

-- `_set_standard_mode`
unfoldable pub set_standard_mode : Settings → String → Bool → Act (Unit {0})
unfolding standard_mode_native_name apply_mode clear_mode
set_standard_mode s mode enabled = do
  native_name ← lift (standard_mode_native_name s mode)
  if enabled then apply_mode s native_name else clear_mode s native_name

-- `_set_throttle`
unfoldable pub set_throttle : Settings → ℕ → Act (Unit {0})
unfolding tell
set_throttle s value = tell s (set_rc_channels (("throttle", value) ∷ []))

abbrev pub is_manual : Option String → Bool
is_manual none = false
is_manual (some mode) = mode == direct_control_manual

-- `_override_is_fresh`, at the time `now`
unfoldable pub override_is_fresh : Settings → ℕ → MspInterface → Bool
override_is_fresh s now g =
    is_manual g.direct_control_mode
    && is_some g.control_override
    && leb now (g.control_override_updated_at + s.control_override_timeout)

-- `if value is not None: channels[name] = normalized_to_pwm(...)`
unfoldable pub put_axis : Settings → String → Option ℤ → Dict String ℕ → Dict String ℕ
put_axis s name none channels = channels
put_axis s name (some value) channels =
    insert name (s.normalized_to_pwm value s.rx_min s.rx_max) channels

-- The loop over the auxiliary channels.
unfoldable pub put_aux : Settings → List AuxChannel → Dict String ℕ → Dict String ℕ
unfolding get_elem? put_axis
put_aux s [] channels = channels
put_aux s (aux ∷ rest) channels = put_aux s rest (elim (get_elem? s.chmap (4 + aux.channel_index)) [
  | none ↦ channels
  | some name ↦ put_axis s name aux.value channels
])

-- `_build_override_channels`
unfoldable pub build_override_channels : Settings → Option ControlOverride → Dict String ℕ
unfolding put_axis put_aux
build_override_channels s none = []
build_override_channels s (some override) = put_aux s override.aux (
    put_axis s s.throttle_channel override.throttle (
      put_axis s s.yaw_channel override.yaw
        (put_axis s s.pitch_channel override.pitch (put_axis s s.roll_channel override.roll []))))
