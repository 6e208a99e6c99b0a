-- ===== src/Controller/Readiness.antt =====
-- What `arm_ready` and `takeoff_ready` promise about the states that the backend reported before.
use native.Mathlib.Nat.{le_trans}
use mpfc.Prelude.{
  ℕ, ◌+◌, ◌≤◌, ◌≡◌, refl, ◌↔◌, ◌⊎◌, inl, inr, Bool, true, false, Option, none, some, List, [], ◌∷◌,
  arith, nat_equality, string_equality, pair_equality,
}
use mpfc.Controller.{
  Settings, UavController, next_since, held_for, arm_hold, takeoff_hold, takeoff_candidate,
  readiness_step,
}
use mpfc.Controller.Holding.{
  Sample, step, observe, IsOrdered, IsArmable, ArmableSince, Agrees, IsOrdered-tail,
  ArmableSince-le, Agrees-observe, arm_ready_held,
}

-- The clock of the policy stands at `t` or before.
abbrev Began : ℕ → Option ℕ → Type 0
Began t none = ⊥
Began t (some u) = u ≤ t

Began-next :
    (since : Option ℕ) (t : ℕ) (x : Sample) (xs : List Sample)
    → IsOrdered (x ∷ xs)
    → Agrees since xs
    → IsArmable x
    → (t ≡ x.now) ⊎ Began t since
    → Began t (next_since x.now x.readiness.armable since)
unfolding next_since
Began-next none t x xs o a r h = ground arith
Began-next (some u) t x xs o a r h = ground (arith, ArmableSince-le u x xs o a)

Began-observe :
    (s : Settings) (t : ℕ) (xs : List Sample) (c : UavController)
    → c.arm_ready_since ≡ none
    → IsOrdered xs
    → ArmableSince t xs
    → Began t (observe s xs c).arm_ready_since
unfolding observe readiness_step
Began-observe s t [] c fresh o h = absurd h
Began-observe s t (x ∷ xs) c fresh o h =
    Began-next (observe s xs c).arm_ready_since t x xs o
      (Agrees-observe s xs c fresh (IsOrdered-tail x xs o)) h.0
      (elim h.2 [
        | inl e ↦ inl e
        | inr r ↦ inr (Began-observe s t xs c fresh (IsOrdered-tail x xs o) r)
      ])

held_enough :
    (now hold t : ℕ) (b : Bool) (since : Option ℕ)
    → b ≡ true
    → t + hold ≤ now
    → Began t since
    → held_for now hold b since ≡ true
unfolding held_for
held_enough now hold t b none r h g = absurd g
held_enough now hold t b (some u) r h g = ground arith

-- A controller that starts with no candidate state reports `arm_ready` exactly when the vehicle has
-- been seen armable, without a break, from a time that lies at least the hold time back.
pub arm_ready_iff :
    (s : Settings) (x : Sample) (xs : List Sample) (c : UavController)
    → c.arm_ready_since ≡ none
    → IsOrdered (x ∷ xs)
    → ((step s x (observe s xs c)).0.arm_ready ≡ true)
      ↔ ((t : ℕ) × (t + arm_hold s ≤ x.now) × ArmableSince t (x ∷ xs))
unfolding readiness_step observe
arm_ready_iff s x xs c fresh o = (
  arm_ready_held s x xs c fresh o,
  λ h.
      held_enough x.now (arm_hold s) h.0 x.readiness.armable (observe s (x ∷ xs) c).arm_ready_since
        h.2.0 h.1 (Began-observe s h.0 (x ∷ xs) c fresh o h.2),
)

-- The two clocks of the policy: a take-off candidate state began no earlier than the armable state
-- around it, and neither lies ahead of the time.
record IsNested (now : ℕ) (c : UavController) : Type 0 where
  inside :
      (t : ℕ) → c.takeoff_ready_since ≡ some t → (u : ℕ) × (c.arm_ready_since ≡ some u) × (u ≤ t)
  past : (u : ℕ) → c.arm_ready_since ≡ some u → u ≤ now

nested_inside :
    (now : ℕ) (can_arm can_take_off : Bool) (a b : Option ℕ) (t : ℕ)
    → (can_take_off ≡ true → can_arm ≡ true)
    → ((u : ℕ) → a ≡ some u → u ≤ now)
    → ((t' : ℕ) → b ≡ some t' → (u : ℕ) × (a ≡ some u) × (u ≤ t'))
    → next_since now can_take_off b ≡ some t
    → (u : ℕ) × (next_since now can_arm a ≡ some u) × (u ≤ t)
unfolding next_since
nested_inside now true true none none t i p n h = (now, refl, ground arith)
nested_inside now true true (some u) none t i p n h = (u, refl, ground (arith, p u refl))
nested_inside now true true none (some t') t i p n h = absurd (cc (n t' refl).1)
nested_inside now true true (some u) (some t') t i p n h = (u, refl, ground (arith, n t' refl))
nested_inside now can_arm false a b t i p n h = cc
nested_inside now false true a b t i p n h = cc (i refl)

takeoff_candidate-IsArmable :
    (s : Settings) (x : Sample)
    → takeoff_candidate s x.located x.readiness x.nav ≡ true
    → IsArmable x
      × (x.located ≡ true)
      × (x.nav.local_position_ok ≡ true)
      × (x.nav.global_position_ok ≡ true)
      × (x.nav.home_position_ok ≡ true)
unfolding takeoff_candidate
takeoff_candidate-IsArmable s x h = ground arith

next_since-le :
    (now u : ℕ) (b : Bool) (a : Option ℕ)
    → ((v : ℕ) → a ≡ some v → v ≤ now)
    → next_since now b a ≡ some u
    → u ≤ now
unfolding next_since
next_since-le now u true none p h = ground arith
next_since-le now u true (some v) p h = ground (arith, p v refl)
next_since-le now u false a p h = cc

step-IsNested :
    (s : Settings) (x : Sample) (before : ℕ) (c : UavController)
    → IsNested before c
    → before ≤ x.now
    → IsNested x.now (step s x c).1
unfolding readiness_step
step-IsNested s x before c n later =
    let past : (u : ℕ) → c.arm_ready_since ≡ some u → u ≤ x.now =
      λ u e. le_trans (n.past u e) later in
    record {
      inside = λ t e.
          nested_inside x.now x.readiness.armable (takeoff_candidate s x.located x.readiness x.nav)
            c.arm_ready_since c.takeoff_ready_since t (λ h. (takeoff_candidate-IsArmable s x h).0)
            past n.inside e;
      past = λ u e. next_since-le x.now u x.readiness.armable c.arm_ready_since past e;
    }

observe-IsNested :
    (s : Settings) (x : Sample) (xs : List Sample) (c : UavController)
    → c.arm_ready_since ≡ none
    → c.takeoff_ready_since ≡ none
    → IsOrdered (x ∷ xs)
    → IsNested x.now (observe s (x ∷ xs) c)
unfolding observe
observe-IsNested s x [] c a b o =
    step-IsNested s x 0 c (record { inside = λ t e. absurd (cc); past = λ u e. absurd (cc) })
      (omega arith)
observe-IsNested s x (y ∷ xs) c a b o =
    step-IsNested s x y.now (observe s (y ∷ xs) c) (observe-IsNested s y xs c a b o.1) o.0

held_inside :
    (now arm take_off : ℕ) (can_arm can_take_off : Bool) (a b : Option ℕ)
    → arm ≤ take_off
    → can_arm ≡ true
    → ((t : ℕ) → b ≡ some t → (u : ℕ) × (a ≡ some u) × (u ≤ t))
    → held_for now take_off can_take_off b ≡ true
    → held_for now arm can_arm a ≡ true
unfolding held_for
held_inside now arm take_off can_arm can_take_off a none le r i h = cc
held_inside now arm take_off can_arm can_take_off none (some t) le r i h = absurd (cc (i t refl).1)
held_inside now arm take_off can_arm can_take_off (some u) (some t) le r i h =
    ground (arith, i t refl)

held_for-candidate :
    (now hold : ℕ) (b : Bool) (since : Option ℕ) → held_for now hold b since ≡ true → b ≡ true
unfolding held_for
held_for-candidate now hold b none h = cc
held_for-candidate now hold b (some t) h = ground arith

-- Where the take-off hold is at least the arming hold, a vehicle that is reported ready for take-off
-- is reported ready to arm too, and its location and its local, global and home positions are there.
pub takeoff_ready-arm_ready :
    (s : Settings) (x : Sample) (xs : List Sample) (c : UavController)
    → c.arm_ready_since ≡ none
    → c.takeoff_ready_since ≡ none
    → IsOrdered (x ∷ xs)
    → arm_hold s ≤ takeoff_hold s
    → (step s x (observe s xs c)).0.takeoff_ready ≡ true
    → ((step s x (observe s xs c)).0.arm_ready ≡ true)
      × (x.located ≡ true)
      × (x.nav.local_position_ok ≡ true)
      × (x.nav.global_position_ok ≡ true)
      × (x.nav.home_position_ok ≡ true)
unfolding readiness_step observe
takeoff_ready-arm_ready s x xs c a b o le ready =
    let after = observe s (x ∷ xs) c in
    let can = takeoff_candidate s x.located x.readiness x.nav in
    let seen =
      takeoff_candidate-IsArmable s x
        (held_for-candidate x.now (takeoff_hold s) can after.takeoff_ready_since ready) in
    (
      held_inside x.now (arm_hold s) (takeoff_hold s) x.readiness.armable can after.arm_ready_since
          after.takeoff_ready_since le seen.0 (observe-IsNested s x xs c a b o).inside ready,
      seen.1,
      seen.2,
      seen.3,
      seen.4,
    )
