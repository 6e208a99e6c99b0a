-- ===== src/Uav.antt =====
-- lib/uav.py: the fields of a control input, and how an override is merged into them. PWM scaling is left
-- to the OCCID SDK by the code. A list of auxiliary channels is a list of values, of which `null` is
-- Python's None.
pub mod Channels
pub mod Tests
use mpfc.Prelude.{
  ℕ, zero, suc, ◌+◌, ◌-◌, ◌*◌, ◌/◌, ◌%◌, ◌≤◌, ◌<◌, min, max, String, ◌≡◌, refl, sym, ap, ◌∙◌, ◌≢◌,
  ◌↔◌, ◌⊎◌, inl, inr, Bool, true, false, not, ◌&&◌, ◌||◌, Option, none, some, List, [], ◌∷◌, ◌++◌,
  map, arith, eq_iff, Equality, nat_equality, string_equality, pair_equality, ◌==◌, beq_refl,
  beq-sym, beq→eq, ne→beq, ltb, leb, if◌then◌else◌, is_some, ltb→lt, lt→ltb, ge→ltb, ltb→ge,
  Bool-cases, Option-cases, length, length-append, any, all, keep, All, All-append,
}
use mpfc.Prelude.Int.{ℤ, ltb_ℤ}
use mpfc.Exec.{ErrorClass, Error, error, Result, ok, err, ◌>>=◌, ◌>>◌, raise, raise_if, or_raise}
use mpfc.Json.{
  Value, Items, Fields, null, bool, int, float, str, list, dict, nil, cons, end, field, get, put,
}

-- `scale_aux_pwm_float`, on whole numbers
unfoldable pub scale_aux_pwm_float : ℤ → ℤ → ℤ → ℤ → Result ℕ
scale_aux_pwm_float value pwm_mid pwm_low pwm_high =
    if ltb_ℤ value pwm_low || ltb_ℤ pwm_high value
    then raise ErrorClass.value_error "value must be within PWM bounds"
    else ok (if ltb_ℤ value pwm_mid then 0 else 1)

abbrev pub from_items : Items → List Value
from_items nil = []
from_items (cons v vs) = v ∷ from_items vs

abbrev pub to_items : List Value → Items
to_items [] = nil
to_items (v ∷ vs) = cons v (to_items vs)

-- `build_control_fields`
unfoldable pub build_control_fields : Value → Value → Value → Value → List Value → Fields
build_control_fields roll pitch yaw throttle [] =
    field "Roll" roll (field "Pitch" pitch (field "Yaw" yaw (field "Throttle" throttle end)))
build_control_fields roll pitch yaw throttle (v ∷ aux) = field "Roll" roll (
    field "Pitch" pitch
      (field "Yaw" yaw (field "Throttle" throttle (field "Aux" (list (to_items (v ∷ aux))) end))))

-- `base_aux.extend([0.0] * n)`
unfoldable pub extend : ℕ → List Value → List Value
extend zero xs = xs
extend (suc n) [] = float "0.0" ∷ extend n []
extend (suc n) (x ∷ xs) = x ∷ extend (suc n) xs

abbrev pub is_null : Value → Bool
is_null null = true
is_null _ = false

-- The loop over the override: a channel that is None keeps its value.
unfoldable pub assign : List Value → List Value → List Value
assign base [] = base
assign [] (o ∷ override) = []
assign (b ∷ base) (o ∷ override) = (if is_null o then b else o) ∷ assign base override

-- `base_aux` behind the loop. The test `len(base) < len(override)` is that of a positive difference.
unfoldable pub merge_aux : List Value → List Value → List Value
unfolding extend assign
merge_aux base override = assign (extend (length override - length base) base) override

-- `list(d.get(key) or [])`, for a list or None
abbrev aux_of : Option Value → List Value
aux_of (some (list vs)) = from_items vs
aux_of _ = []

abbrev override_key : String → Fields → Fields → Fields
override_key key override merged = elim (get key override) [
  | none ↦ merged
  | some v ↦ put key v merged
]

abbrev set_aux : List Value → Fields → Fields
set_aux [] merged = merged
set_aux (v ∷ vs) merged = put "Aux" (list (to_items (v ∷ vs))) merged

-- `merge_control_fields`
unfoldable pub merge_control_fields : Fields → Fields → Fields
unfolding merge_aux
merge_control_fields base override =
    let axes = override_key "Throttle" override (
      override_key "Yaw" override
        (override_key "Pitch" override (override_key "Roll" override base))) in
    elim (get "Aux" override) [
      | none ↦ axes
      | some aux ↦ set_aux (merge_aux (aux_of (get "Aux" base)) (aux_of (some aux))) axes
    ]
