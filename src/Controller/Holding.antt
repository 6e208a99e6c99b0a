-- ===== src/Controller/Holding.antt =====
-- When arm_ready may be reported, and how an observation keeps the record of it.

use mpfc.Prelude.{
  ℕ, ◌+◌, ◌≤◌, ◌≡◌, ◌⊎◌, Bool, true, Option, none, some, List, [], ◌∷◌, arith, nat_equality,
  string_equality, pair_equality,
}
use mpfc.Occid.{NavReadinessState, NavigationValidity}
use mpfc.Controller.{Settings, UavController, next_since, held_for, arm_hold, readiness_step}

-- What one run of the policy reads.
pub record Sample : Type 0 where
  pub now : ℕ
  pub located : Bool
  pub readiness : NavReadinessState
  pub nav : NavigationValidity

abbrev pub step : Settings → Sample → UavController → NavReadinessState × UavController
step s x c = readiness_step s x.now x.located x.readiness x.nav c

-- The controller behind a history of runs, the newest first.
unfoldable pub observe : Settings → List Sample → UavController → UavController
observe s [] c = c
observe s (x ∷ xs) c = (step s x (observe s xs c)).1

-- No run is older than the one before it.
abbrev pub IsOrdered : List Sample → Type 0
IsOrdered [] = Unit
IsOrdered (x ∷ []) = Unit
IsOrdered (x ∷ y ∷ xs) = (y.now ≤ x.now) × IsOrdered (y ∷ xs)

abbrev pub IsArmable : Sample → Type 0
IsArmable x = x.readiness.armable ≡ true

-- The vehicle has been armable since `t`: a run saw it so at `t`, and so did every later one.
abbrev pub ArmableSince : ℕ → List Sample → Type 0
ArmableSince t [] = ⊥
ArmableSince t (x ∷ xs) = IsArmable x × (t ≤ x.now) × ((t ≡ x.now) ⊎ ArmableSince t xs)

abbrev pub Agrees : Option ℕ → List Sample → Type 0
Agrees none xs = Unit
Agrees (some t) xs = ArmableSince t xs

pub IsOrdered-tail : (x : Sample) (xs : List Sample) → IsOrdered (x ∷ xs) → IsOrdered xs
IsOrdered-tail x [] h = tt
IsOrdered-tail x (y ∷ xs) h = h.1

pub ArmableSince-le :
    (t : ℕ) (x : Sample) (xs : List Sample) → IsOrdered (x ∷ xs) → ArmableSince t xs → t ≤ x.now
ArmableSince-le t x [] o h = absurd h
ArmableSince-le t x (y ∷ xs) o h = omega arith

Agrees-next :
    (since : Option ℕ) (x : Sample) (xs : List Sample)
    → IsOrdered (x ∷ xs)
    → Agrees since xs
    → Agrees (next_since x.now x.readiness.armable since) (x ∷ xs)
unfolding next_since
Agrees-next none x xs o h = ground arith
Agrees-next (some t) x xs o h = ground (arith, ArmableSince-le t x xs o)

pub Agrees-observe :
    (s : Settings) (xs : List Sample) (c : UavController)
    → c.arm_ready_since ≡ none
    → IsOrdered xs
    → Agrees (observe s xs c).arm_ready_since xs
unfolding observe readiness_step
Agrees-observe s [] c fresh o = rw (fresh, Agrees) tt
Agrees-observe s (x ∷ xs) c fresh o =
    Agrees-next (observe s xs c).arm_ready_since x xs o
      (Agrees-observe s xs c fresh (IsOrdered-tail x xs o))

pub arm_ready_held :
    (s : Settings) (x : Sample) (xs : List Sample) (c : UavController)
    → c.arm_ready_since ≡ none
    → IsOrdered (x ∷ xs)
    → (step s x (observe s xs c)).0.arm_ready ≡ true
    → (t : ℕ) × (t + arm_hold s ≤ x.now) × ArmableSince t (x ∷ xs)
unfolding readiness_step
arm_ready_held s x xs c fresh o ready =
    held (next_since x.now x.readiness.armable (observe s xs c).arm_ready_since)
      (Agrees-next (observe s xs c).arm_ready_since x xs o
        (Agrees-observe s xs c fresh (IsOrdered-tail x xs o)))
      ready
  where
    held :
        (since : Option ℕ)
        → Agrees since (x ∷ xs)
        → held_for x.now (arm_hold s) x.readiness.armable since ≡ true
        → (t : ℕ) × (t + arm_hold s ≤ x.now) × ArmableSince t (x ∷ xs)
    held none a h = cc
    held (some t) a h = (t, ground arith, a)
