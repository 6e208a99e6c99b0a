-- ===== src/Ingress/Silent.antt =====
-- The waits and the preparation of a move decide nothing.
use mpfc.Prelude.{
  ℕ, ◌+◌, String, ◌≡◌, refl, ◌∙◌, Bool, true, false, not, Option, none, some, List, [], ◌∷◌, ◌++◌,
  arith, nat_equality, string_equality, pair_equality, ◌==◌, if◌then◌else◌,
}
use mpfc.Exec.{ErrorClass, Error, error, Result, ok, err}
use mpfc.Prelude.Int.{ℤ}
use mpfc.Ingress.{GlobalPosition, UavCommand, Settings, ExecutionIngress}
use mpfc.Ingress.Vehicle.{
  Turn, World, Move, ◌>>=◌, ◌>>◌, pure, fail, lift, change, peek, pump_with_ingress, until, wait,
  execute, settle, flight_is, located, post_takeoff, arm_if_needed, wait_until,
  takeoff_altitude_for, wait_for_location, take_off, prepare_vehicle_for_move,
}
use mpfc.Ingress.Reports.{decisions, decisions-pump}

-- Where a method ends, the decisions are those of `g`.
abbrev pub Kept : {A : Type 0} → ExecutionIngress → Option (Result A × World) → Type 0
Kept g none = Unit
Kept g (some (result, w)) = decisions w.ingress ≡ decisions g

abbrev pub IsSilent : {A : Type 0} → Move A → Type 0
IsSilent m = (w : World) → Kept w.ingress (m w)

pub Kept-trans :
    {A : Type 0} (g g' : ExecutionIngress) (o : Option (Result A × World))
    → decisions g' ≡ decisions g
    → Kept g' o
    → Kept g o
Kept-trans g g' none h k = tt
Kept-trans g g' (some (r, w)) h k = k ∙ h

module _ {A B : Type 0} where
  bind-Kept :
      (g : ExecutionIngress) (f : A → Move B) (o : Option (Result A × World))
      → Kept g o
      → ((a : A) → IsSilent (f a))
      → Kept g (elim o as (λ _. Option (Result B × World)) [
        | none ↦ none
        | some (ok a, w') ↦ f a w'
        | some (err e, w') ↦ some (err e, w')
      ])
  bind-Kept g f none h k = tt
  bind-Kept g f (some (ok a, w)) h k = Kept-trans g w.ingress (f a w) h (k a w)
  bind-Kept g f (some (err e, w)) h k = h

  pub bind-IsSilent :
      (m : Move A) (f : A → Move B) → IsSilent m → ((a : A) → IsSilent (f a)) → IsSilent (m >>= f)
  bind-IsSilent m f hm hf w = bind-Kept w.ingress f (m w) (hm w) hf

pub then-IsSilent :
    {B : Type 0} (m : Move (Unit {0})) (n : Move B) → IsSilent m → IsSilent n → IsSilent (m >> n)
then-IsSilent m n hm hn = bind-IsSilent m (λ _. n) hm (λ _. hn)

pub pure-IsSilent : {A : Type 0} (a : A) → IsSilent (pure a)
pure-IsSilent a w = refl

pub if-IsSilent :
    {A : Type 0} (b : Bool) (m n : Move A) → IsSilent m → IsSilent n → IsSilent (if b then m else n)
if-IsSilent true m n hm hn = hm
if-IsSilent false m n hm hn = hn

pub lift-IsSilent : {A : Type 0} (r : Result A) → IsSilent (lift r)
lift-IsSilent r w = refl

pub peek-IsSilent : IsSilent peek
peek-IsSilent w = go w.ingress w.script
  where
    go :
        (g : ExecutionIngress) (ts : List Turn)
        → Kept g (peek (record { ingress = g; script = ts }))
    go g [] = tt
    go g (t ∷ ts) = refl

pub until-Kept :
    {A : Type 0} (s : Settings) (check : Turn → Option (Result A)) (deadline : ℕ)
    (timed_out : Error) (ts : List Turn) (g : ExecutionIngress)
    → Kept g (until s check deadline timed_out ts g)
unfolding until
until-Kept s check deadline timed_out [] g = tt
until-Kept s check deadline timed_out (t ∷ ts) g = ground (
  arith,
  decisions-pump s t.received g,
  Kept-trans g (pump_with_ingress s t.received g).1
      (until s check deadline timed_out ts (pump_with_ingress s t.received g).1)
      (decisions-pump s t.received g)
      (until-Kept s check deadline timed_out ts (pump_with_ingress s t.received g).1),
)

settle-Kept :
    (s : Settings) (deadline : ℕ) (ts : List Turn) (g : ExecutionIngress)
    → Kept g (settle s deadline ts g)
unfolding settle
settle-Kept s deadline [] g = tt
settle-Kept s deadline (t ∷ ts) g =
    let g' = (pump_with_ingress s t.received g).1 in
    let pumped = decisions-pump s t.received g in
    ground (
      arith,
      pumped,
      Kept-trans g g' (settle s deadline ts g') pumped (settle-Kept s deadline ts g'),
    )

pub wait-IsSilent :
    {A : Type 0} (s : Settings) (check : Turn → Option (Result A)) (timeout : ℕ) (text : String)
    → IsSilent (wait s check timeout text)
unfolding wait
wait-IsSilent s check timeout text = bind-IsSilent peek _ peek-IsSilent λ first w.
    until-Kept s check (first.clock + timeout) (error ErrorClass.runtime_error text) w.script
      w.ingress

pub execute-IsSilent : (s : Settings) (command : UavCommand) → IsSilent (execute s command)
unfolding execute
execute-IsSilent s command =
    then-IsSilent (change (λ g. record g { commands = g.commands ++ command ∷ [] })) _ (λ w. refl)
      (wait-IsSilent s (λ t. t.response) s.response_timeout "timeout waiting for UAV result")

pub wait_for_location-IsSilent : (s : Settings) → IsSilent (wait_for_location s)
unfolding wait_for_location
wait_for_location-IsSilent s =
    wait-IsSilent s located s.state_timeout "timed out waiting for UAV LocationState.position"

wait_until-IsSilent :
    (s : Settings) (p : Turn → Bool) (text : String) → IsSilent (wait_until s p text)
wait_until-IsSilent s p text = wait-IsSilent s _ s.state_timeout text

post_takeoff-IsSilent : (s : Settings) → IsSilent (post_takeoff s)
post_takeoff-IsSilent s = if-IsSilent (s.post_takeoff_wait == 0) (pure tt) _ (pure-IsSilent tt) (
    bind-IsSilent peek _ peek-IsSilent
      λ first w. settle-Kept s (first.clock + s.post_takeoff_wait) w.script w.ingress)

arm_if_needed-IsSilent : (s : Settings) → IsSilent (arm_if_needed s)
arm_if_needed-IsSilent s = bind-IsSilent peek _ peek-IsSilent λ now.
    if-IsSilent (flight_is (λ f. f.armed) now) (pure tt) _ (pure-IsSilent tt) (
      then-IsSilent _ _ (execute-IsSilent s UavCommand.arm)
        (wait_until-IsSilent s (flight_is (λ f. f.armed)) "timed out waiting for UAV armed state"))

pub take_off-IsSilent : (s : Settings) (altitude : ℤ) → IsSilent (take_off s altitude)
unfolding take_off
take_off-IsSilent s altitude = then-IsSilent _ _ (execute-IsSilent s _) (
    then-IsSilent _ _ (wait_until-IsSilent s _ _) (
      then-IsSilent _ _ (arm_if_needed-IsSilent s) (
        then-IsSilent _ _ (wait_until-IsSilent s _ _) (
          then-IsSilent _ _ (execute-IsSilent s _)
            (then-IsSilent _ _ (wait_until-IsSilent s _ _) (post_takeoff-IsSilent s))))))

pub prepare-IsSilent : (s : Settings) (d : GlobalPosition) → IsSilent (prepare_vehicle_for_move s d)
unfolding prepare_vehicle_for_move
prepare-IsSilent s d = bind-IsSilent peek _ peek-IsSilent λ now.
    if-IsSilent (flight_is (λ f. f.in_air) now) (pure tt) _ (pure-IsSilent tt) (
      if-IsSilent (not s.auto_takeoff_for_move) (fail _) _ (λ w. refl)
        (if-IsSilent _ (fail _) _ (λ w. refl) (take_off-IsSilent s (takeoff_altitude_for s d))))
