-- ===== src/Ingress/Within.antt =====
-- Methods that end within a number of turns, where the clock moves on from turn to turn.

use mpfc.Prelude.{
  ℕ, zero, suc, ◌+◌, ◌≤◌, ◌<◌, ◌≡◌, refl, inl, inr, Bool, true, false, Option, none, some, List, [],
  ◌∷◌, arith, nat_equality, string_equality, pair_equality, ltb, if◌then◌else◌, ltb→lt, ltb→ge,
  Bool-cases, Option-cases, length,
}
use mpfc.Exec.{ErrorClass, Error, error, Result, ok, err}
use mpfc.Ingress.{Settings, ExecutionIngress}
use mpfc.Ingress.Vehicle.{
  Turn, World, Move, ◌>>=◌, ◌>>◌, lift, peek, pump_with_ingress, until, settle,
}

-- The clock starts at `c` or later and moves on by a tick or more from turn to turn.
abbrev pub Rises : ℕ → List Turn → Type 0
Rises c [] = Unit
Rises c (t ∷ ts) = (c ≤ t.clock) × Rises (suc t.clock) ts

pub Rises-le : (b c : ℕ) (ts : List Turn) → b ≤ c → Rises c ts → Rises b ts
Rises-le b c [] h r = tt
Rises-le b c (t ∷ ts) h r = (omega (arith, r.0), r.1)

-- A method that ends, and has used no more than `n` turns of `ts`.
abbrev pub Within : {A : Type 0} → ℕ → List Turn → Option (Result A × World) → Type 0
Within n ts none = ⊥
Within n ts (some (result, w)) = Rises 0 w.script × (length ts ≤ length w.script + n)

-- Where there are `n` turns, they are enough.
abbrev pub EndsIn : {A : Type 0} → ℕ → Move A → Type 0
EndsIn n m = (w : World) → Rises 0 w.script → n ≤ length w.script → Within n w.script (m w)

Within-le :
    {A : Type 0} (m n : ℕ) (ts us : List Turn) (o : Option (Result A × World))
    → length ts + m ≤ length us + n
    → Within m us o
    → Within n ts o
Within-le m n ts us none h x = x
Within-le m n ts us (some (r, w)) h x = (x.0, omega (arith, h, x.1))

pub EndsIn-le : {A : Type 0} (m n : ℕ) (f : Move A) → m ≤ n → EndsIn m f → EndsIn n f
EndsIn-le m n f h e w r enough =
    Within-le m n w.script w.script (f w) (omega (arith, h)) (e w r (omega (arith, h, enough)))

module _ {A B : Type 0} where
  bind-Within :
      (m n : ℕ) (ts : List Turn) (f : A → Move B) (o : Option (Result A × World))
      → m + n ≤ length ts
      → Within m ts o
      → ((a : A) → EndsIn n (f a))
      → Within (m + n) ts (elim o as (λ _. Option (Result B × World)) [
        | none ↦ none
        | some (ok a, w') ↦ f a w'
        | some (err e, w') ↦ some (err e, w')
      ])
  bind-Within m n ts f none h x k = x
  bind-Within m n ts f (some (ok a, w)) h x k =
      Within-le n (m + n) ts w.script (f a w) (omega (arith, x.1))
        (k a w x.0 (omega (arith, h, x.1)))
  bind-Within m n ts f (some (err e, w)) h x k = (x.0, omega (arith, x.1))

  pub bind-EndsIn :
      (m n : ℕ) (f : Move A) (g : A → Move B)
      → EndsIn m f
      → ((a : A) → EndsIn n (g a))
      → EndsIn (m + n) (f >>= g)
  bind-EndsIn m n f g hf hg w r enough =
      bind-Within m n w.script g (f w) enough (hf w r (omega (arith, enough))) hg

pub then-EndsIn :
    {B : Type 0} (m n : ℕ) (f : Move (Unit {0})) (g : Move B)
    → EndsIn m f
    → EndsIn n g
    → EndsIn (m + n) (f >> g)
then-EndsIn m n f g hf hg = bind-EndsIn m n f (λ _. g) hf (λ _. hg)

pub if-EndsIn :
    {A : Type 0} (n : ℕ) (b : Bool) (f g : Move A)
    → EndsIn n f
    → EndsIn n g
    → EndsIn n (if b then f else g)
if-EndsIn n true f g hf hg = hf
if-EndsIn n false f g hf hg = hg

pub lift-EndsIn : {A : Type 0} (r : Result A) → EndsIn 0 (lift r)
lift-EndsIn r w h enough = (h, omega arith)

-- What is behind the first look at the clock may use it.
pub peek-EndsIn :
    {A : Type 0} (n : ℕ) (f : Turn → Move A)
    → ((t : Turn) (ts : List Turn) (g : ExecutionIngress)
        → Rises 0 (t ∷ ts)
        → n ≤ length (t ∷ ts)
        → Within n (t ∷ ts) (f t (record { ingress = g; script = t ∷ ts })))
    → EndsIn (suc n) (peek >>= f)
peek-EndsIn {A = A} n f h w = go w.ingress w.script
  where
    go :
        (g : ExecutionIngress) (ts : List Turn)
        → Rises 0 ts
        → suc n ≤ length ts
        → Within (suc n) ts ((peek >>= f) (record { ingress = g; script = ts }))
    go g [] r enough = absurd (omega (arith, enough))
    go g (t ∷ ts) r enough =
        Within-le n (suc n) (t ∷ ts) (t ∷ ts) (f t (record { ingress = g; script = t ∷ ts }))
          (omega arith) (h t ts g r (omega (arith, enough)))

done-Within :
    {A : Type 0} (n : ℕ) (t : Turn) (ts : List Turn) (result : Result A) (g : ExecutionIngress)
    → Rises 0 ts
    → Within (suc n) (t ∷ ts) (some (result, record { ingress = g; script = ts }))
done-Within n t ts result g r = (r, omega arith)

-- The end of a turn: the test of the deadline, the pump, and `more`, the turns behind it.
pub turn-Within :
    {A : Type 0} (n : ℕ) (t : Turn) (ts : List Turn) (late : Bool) (pumped : Result (Unit {0}))
    (timed_out : Error) (g g' : ExecutionIngress) (more : Option (Result A × World))
    → Rises 0 ts
    → (late ≡ false → Within n ts more)
    → Within (suc n) (t ∷ ts) (elim late as (λ _. Option (Result A × World)) [
      | true ↦ some (err timed_out, record { ingress = g; script = ts })
      | false ↦ elim pumped [
        | err e ↦ some (err e, record { ingress = g'; script = ts })
        | ok _ ↦ more
      ]
    ])
turn-Within n t ts true pumped e g g' more r h = (r, omega arith)
turn-Within n t ts false (err e) _ g g' more r h = (r, omega arith)
turn-Within n t ts false (ok _) e g g' more r h =
    Within-le n (suc n) (t ∷ ts) ts more (omega arith) (h refl)

pub until-Within :
    {A : Type 0} (s : Settings) (check : Turn → Option (Result A)) (deadline : ℕ)
    (timed_out : Error) (c k : ℕ) (ts : List Turn) (g : ExecutionIngress)
    → Rises c ts
    → deadline < c + k
    → suc k ≤ length ts
    → Within (suc k) ts (until s check deadline timed_out ts g)
unfolding until
until-Within s check deadline timed_out c k [] g r d enough = absurd (omega (arith, enough))
until-Within s check deadline timed_out c zero (t ∷ ts) g r d enough =
    let p = pump_with_ingress s t.received g in
    let rest = Rises-le 0 (suc t.clock) ts (omega arith) r.1 in
    elim (Option-cases (check t)) [
      | inr (found, f) ↦ rw (f, until) (rest, omega arith)
      | inl nothing ↦
          rw (nothing, until)
            (turn-Within 0 t ts (ltb deadline t.clock) p.0 timed_out g p.1
              (until s check deadline timed_out ts p.1) rest
              (λ early. absurd (omega (arith, ltb→ge deadline t.clock early, r.0, d))))
    ]
until-Within s check deadline timed_out c (suc k) (t ∷ ts) g r d enough =
    let p = pump_with_ingress s t.received g in
    let rest = Rises-le 0 (suc t.clock) ts (omega arith) r.1 in
    elim (Option-cases (check t)) [
      | inr (found, f) ↦ rw (f, until) (rest, omega arith)
      | inl nothing ↦
          rw (nothing, until)
            (turn-Within (suc k) t ts (ltb deadline t.clock) p.0 timed_out g p.1
              (until s check deadline timed_out ts p.1) rest
              (λ early.
                until-Within s check deadline timed_out (suc t.clock) k ts p.1 r.1
                  (omega (arith, r.0, d)) (omega (arith, enough))))
    ]

pub settle-Within :
    (s : Settings) (deadline c k : ℕ) (ts : List Turn) (g : ExecutionIngress)
    → Rises c ts
    → deadline < c + k
    → suc k ≤ length ts
    → Within (suc k) ts (settle s deadline ts g)
unfolding settle
settle-Within s deadline c k [] g r d enough = absurd (omega (arith, enough))
settle-Within s deadline c zero (t ∷ ts) g r d enough = elim (Bool-cases (ltb t.clock deadline)) [
  | inl early ↦ absurd (omega (arith, ltb→lt t.clock deadline early, r.0, d))
  | inr over ↦ rw (over, settle) (Rises-le 0 (suc t.clock) ts (omega arith) r.1, omega arith)
]
settle-Within s deadline c (suc k) (t ∷ ts) g r d enough =
    let p = pump_with_ingress s t.received g in
    let rest = Rises-le 0 (suc t.clock) ts (omega arith) r.1 in
    elim (Bool-cases (ltb t.clock deadline)) [
      | inr over ↦ rw (over, settle) (rest, omega arith)
      | inl early ↦
          rw (early, settle)
            (turn-Within (suc k) t ts false p.0 (error ErrorClass.runtime_error "") g p.1
              (settle s deadline ts p.1) rest
              (λ _.
                settle-Within s deadline (suc t.clock) k ts p.1 r.1 (omega (arith, r.0, d))
                  (omega (arith, enough))))
    ]
