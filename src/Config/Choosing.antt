-- ===== src/Config/Choosing.antt =====
-- What it means for `configure_runtime_plugins` that a plugin is the only one that fits.

use mpfc.Prelude.{
  String, Bool, ◌≡◌, refl, sym, ap, ◌∙◌, ◌⊎◌, inl, inr, Option, none, some, List, [], ◌∷◌, ◌++◌,
  arith, true, false, nat_equality, string_equality, pair_equality, ◌==◌, beq→eq, beq_refl,
  if◌then◌else◌, Bool-cases, Option-cases, keep, All,
}
use mpfc.Config.Backend.{
  Vehicle, Supports, Plugin, Endpoint, among, same_text, endpoint_eq, plugin_supports_vehicle,
  is_backend, set_controller,
}

module _ {ℓ} {A : Type ℓ} where
  -- One of a list passes the test, and no other.
  abbrev pub IsOnly : (A → Bool) → A → List A → List A → Type 0
  IsOnly f x before after =
      (f x ≡ true) × All (λ y. f y ≡ false) before × All (λ y. f y ≡ false) after

  first-eq : (y x : A) (ys : List A) → y ∷ ys ≡ x ∷ [] → y ≡ x
  first-eq y x ys h = cc

  rest-eq : (y x : A) (ys : List A) → y ∷ ys ≡ x ∷ [] → ys ≡ []
  rest-eq y x ys h = cc

  keep-none : (f : A → Bool) (xs : List A) → keep f xs ≡ [] → All (λ y. f y ≡ false) xs
  keep-none f [] h = tt
  keep-none f (x ∷ xs) h = elim (Bool-cases (f x)) [
    | inl passes ↦ absurd (ground (arith, h, passes))
    | inr fails ↦ (fails, keep-none f xs (rw (fails, keep) at h))
  ]

  pub keep-IsOnly :
      (f : A → Bool) (x : A) (xs : List A)
      → keep f xs ≡ x ∷ []
      → (before : List A) × (after : List A) × (xs ≡ before ++ x ∷ after) × IsOnly f x before after
  keep-IsOnly f x [] h = absurd (ground (arith, h))
  keep-IsOnly f x (y ∷ ys) h = elim (Bool-cases (f y)) [
    | inl passes ↦
        let alone = rw (passes, keep) at h in
        (
          [],
          ys,
          ap (λ z. z ∷ ys) (first-eq y x (keep f ys) alone),
          (
            ap f (sym (first-eq y x (keep f ys) alone)) ∙ passes,
            tt,
            keep-none f ys (rest-eq y x (keep f ys) alone),
          ),
        )
    | inr fails ↦
        let (before, after, e, only) = keep-IsOnly f x ys (rw (fails, keep) at h) in
        let (passes, front, back) = only in
        (y ∷ before, after, ap (λ zs. y ∷ zs) e, (passes, (fails, front), back))
  ]

-- A name is one of a list.
abbrev pub IsAmong : String → List String → Type 0
IsAmong x [] = ⊥
IsAmong x (y ∷ ys) = (y ≡ x) ⊎ IsAmong x ys

-- An interface plugin of a namespace that supports the vehicle: its autopilot and its telemetry.
abbrev pub Fits : String → Vehicle → Plugin → Type 0
Fits namespace v p =
    (s : Supports) × (p.is_interface ≡ true)
    × (p.topic_ns ≡ some namespace)
    × (p.supports ≡ some s)
    × IsAmong v.autopilot s.autopilot
    × IsAmong v.telem_type s.telem_type

among-IsAmong : (x : String) (xs : List String) → among x xs ≡ true → IsAmong x xs
among-IsAmong x [] h = absurd (ground (arith, h))
among-IsAmong x (y ∷ ys) h = elim (Bool-cases (y == x)) [
  | inl same ↦ inl (beq→eq y x same)
  | inr other ↦ inr (among-IsAmong x ys (rw other at h))
]

IsAmong-among : (x : String) (xs : List String) → IsAmong x xs → among x xs ≡ true
IsAmong-among x [] none_there = elim none_there [ ]
IsAmong-among x (y ∷ ys) (inl same) = rw (same, beq_refl x) refl
IsAmong-among x (y ∷ ys) (inr later) = ground (arith, IsAmong-among x ys later)

same_text-eq : (a : Option String) (b : String) → same_text a (some b) ≡ true → a ≡ some b
same_text-eq none b h = absurd (ground (arith, h))
same_text-eq (some a) b h = ap some (beq→eq a b h)

pub is_backend-Fits :
    (ns : String) (v : Vehicle) (p : Plugin) → is_backend ns v p ≡ true → Fits ns v p
unfolding plugin_supports_vehicle
is_backend-Fits ns v p h = elim (Option-cases p.supports) [
  | inl missing ↦ absurd (ground (arith, h, missing))
  | inr (s, given) ↦ (
    s,
    ground (arith, h, given),
    same_text-eq p.topic_ns ns (ground (arith, h, given)),
    given,
    among-IsAmong v.autopilot s.autopilot (ground (arith, h, given)),
    among-IsAmong v.telem_type s.telem_type (ground (arith, h, given)),
  )
]

Fits-is_backend : (ns : String) (v : Vehicle) (p : Plugin) → Fits ns v p → is_backend ns v p ≡ true
unfolding plugin_supports_vehicle
Fits-is_backend ns v p (s, interface, named, given, flies, speaks) =
    rw
      (
        interface,
        named,
        beq_refl ns,
        given,
        IsAmong-among v.autopilot s.autopilot flies,
        IsAmong-among v.telem_type s.telem_type speaks,
      )
      refl

pub All-not_Fits :
    (ns : String) (v : Vehicle) (ps : List Plugin)
    → All (λ p. is_backend ns v p ≡ false) ps
    → All (λ p. Fits ns v p → ⊥) ps
All-not_Fits ns v [] h = tt
All-not_Fits ns v (p ∷ ps) (fails, h) =
    (λ fits. ground (arith, fails, Fits-is_backend ns v p fits), All-not_Fits ns v ps h)

pub endpoint_eq→eq : (a b : Endpoint) → endpoint_eq a b ≡ true → a ≡ b
endpoint_eq→eq a b h =
    rw (beq→eq a.id b.id (ground (arith, h)), beq→eq a.topic_ns b.topic_ns (ground (arith, h))) refl

if-true : (b : Bool) (ps qs : List Plugin) → b ≡ true → (if b then ps else qs) ≡ ps
if-true b ps qs h = rw h refl

if-false : (b : Bool) (ps qs : List Plugin) → b ≡ false → (if b then ps else qs) ≡ qs
if-false b ps qs h = rw h refl

pub set_controller-only :
    (f : Plugin → Plugin) (controller : Plugin) (before after : List Plugin)
    → IsOnly (λ p. p.is_controller) controller before after
    → set_controller f (before ++ controller ∷ after) ≡ before ++ f controller ∷ after
unfolding set_controller
set_controller-only f controller [] after (one, front, back) = if-true _ _ _ one
set_controller-only f controller (p ∷ ps) after (one, (other, front), back) =
    if-false _ _ _ other
    ∙ ap (λ qs. p ∷ qs) (set_controller-only f controller ps after (one, front, back))
