-- ===== src/Msp/Stability.antt =====
-- What a change of the adapter's state keeps, and how it passes through methods and jobs.

use mpfc.Prelude.{
  Bool, true, false, Option, none, some, List, nat_equality, string_equality, pair_equality,
  if◌then◌else◌,
}
use mpfc.Exec.{Result, ok, err}
use mpfc.Prelude.Int.{ℤ}
use mpfc.Msp.{
  Call, MspInterface, Tick, World, Act, go_on, Job, resume, at_once, afterwards, ◌>>=◌, ◌>>◌, lift,
}
use mpfc.Msp.Channels.{direct_control_manual}
use mpfc.Msp.Flight.{see}

-- A method that does not wait keeps a predicate.
abbrev pub Keeps : {A : Type 0} → (MspInterface → Type 0) → Act A → Type 0
Keeps P m = (g : MspInterface) → P g → P (m g).1

-- So does one that may wait, if it ends.
abbrev pub After : (MspInterface → Type 0) → Option (Result (Unit {0}) × World) → Type 0
After P none = Unit
After P (some (_, w)) = P w.node

abbrev pub Stays : (MspInterface → Type 0) → Job → Type 0
Stays P job = (w : World) → P w.node → After P (job w)

-- The changes that commands make, one by one.
pub record IsStable (P : MspInterface → Type 0) : Type 0 where
  pub by_call : (g : MspInterface) (calls : List Call) → P g → P (record g { sent = calls })
  pub by_turn : (g : MspInterface) (t : Tick) → P g → P (see t g)
  pub by_altitude :
      (g : MspInterface) (altitude : Option ℤ)
      → P g
      → P (record g { takeoff_altitude_m = altitude })
  pub by_begin :
      (g : MspInterface) → P g → P (record g { direct_control_mode = some direct_control_manual })
  pub by_end :
      (g : MspInterface)
      → P g
      → P (record g {
        direct_control_mode = none;
        control_override = none;
        control_override_updated_at = 0;
      })

module _ (P : MspInterface → Type 0) where
  go_on-Keeps :
      {A B : Type 0} (f : A → Act B) (r : Result A)
      → ((a : A) → Keeps P (f a))
      → Keeps P (go_on f r)
  go_on-Keeps f (ok a) hf g h = hf a g h
  go_on-Keeps f (err e) hf g h = h

  pub bind-Keeps :
      {A B : Type 0} (m : Act A) (f : A → Act B)
      → Keeps P m
      → ((a : A) → Keeps P (f a))
      → Keeps P (m >>= f)
  bind-Keeps m f hm hf g h = go_on-Keeps f (m g).0 hf (m g).1 (hm g h)

  pub then-Keeps :
      {B : Type 0} (m : Act (Unit {0})) (n : Act B) → Keeps P m → Keeps P n → Keeps P (m >> n)
  then-Keeps m n hm hn = bind-Keeps m (λ _. n) hm (λ _. hn)

  pub lift-Keeps : {A : Type 0} (r : Result A) → Keeps P (lift r)
  lift-Keeps r w h = h

  pub if-Keeps :
      {A : Type 0} (b : Bool) (m n : Act A) → Keeps P m → Keeps P n → Keeps P (if b then m else n)
  if-Keeps true m n hm hn = hm
  if-Keeps false m n hm hn = hn

  pub if-Stays : (b : Bool) (m n : Job) → Stays P m → Stays P n → Stays P (if b then m else n)
  if-Stays true m n hm hn = hm
  if-Stays false m n hm hn = hn

  pub at_once-Stays : (m : Act (Unit {0})) → Keeps P m → Stays P (at_once m)
  at_once-Stays m hm w h = hm w.node h

  resume-After :
      (r : Result (Unit {0})) (job : Job) (w : World)
      → P w.node
      → Stays P job
      → After P (resume job r w)
  resume-After (ok _) job w h k = k w h
  resume-After (err e) job w h k = h

  pub afterwards-Stays :
      (m : Act (Unit {0})) (job : Job) → Keeps P m → Stays P job → Stays P (afterwards m job)
  afterwards-Stays m job hm hj w h =
      resume-After (m w.node).0 job (record w { node = (m w.node).1 }) (hm w.node h) hj
