-- ===== src/Exec.antt =====
-- Exceptions as values, and methods that change an object and may raise.
use mpfc.Prelude.{String, Bool, true, false, Option, none, some, ◌≡◌, refl, ◌⊎◌, inl, inr}

-- The exception classes that the program raises or catches.
pub data ErrorClass : Type 0 where
  type_error value_error key_error runtime_error attribute_error system_exit unsupported_command
        action_error offboard_error other_error :
      ErrorClass

-- An exception: its class and the words of its message.
pub record Error : Type 0 where
  pub class : ErrorClass
  pub text : String

abbrev pub error : ErrorClass → String → Error
error c t = record { class = c; text = t }

-- `except (TypeError, ValueError, KeyError)`
abbrev pub is_data_error : Error → Bool
is_data_error e = elim e.class [
  | ErrorClass.type_error ↦ true
  | ErrorClass.value_error ↦ true
  | ErrorClass.key_error ↦ true
  | _ ↦ false
]

-- `except Exception`, which does not catch `SystemExit`
abbrev pub is_exception : Error → Bool
is_exception e = elim e.class [ ErrorClass.system_exit ↦ false | _ ↦ true ]

pub data Result {ℓ} (A : Type ℓ) : Type ℓ where
  ok : A → Result A
  err : Error → Result A

infixl 5 ◌>>=◌ ◌>>◌
-- What follows runs where nothing was raised.
abbrev pub ◌>>=◌ {ℓ κ} : {S : Type ℓ} {T : Type κ} → Result S → (S → Result T) → Result T
err raised >>= next = err raised
ok value >>= next = next value

abbrev pub ◌>>◌ {ℓ} : {T : Type ℓ} → Result (Unit {0}) → Result T → Result T
first >> second = first >>= λ _. second

abbrev pub raise {ℓ} : {A : Type ℓ} → ErrorClass → String → Result A
raise c t = err (error c t)

-- `if b: raise e`
abbrev pub raise_if : Bool → ErrorClass → String → Result (Unit {0})
raise_if true c t = raise c t
raise_if false c t = ok tt

-- What is missing raises.
abbrev pub or_raise {ℓ} : {A : Type ℓ} → Option A → ErrorClass → String → Result A
or_raise none c t = raise c t
or_raise (some a) c t = ok a

-- Inversion of a chain that returns.
pub >>=-eq-ok {ℓ κ} :
    {S : Type ℓ} {T : Type κ} (r : Result S) (next : S → Result T) {t : T}
    → (r >>= next) ≡ ok t
    → (s : S) × (r ≡ ok s) × (next s ≡ ok t)
>>=-eq-ok (err raised) next returned = cc
>>=-eq-ok (ok value) next returned = (value, refl, returned)

pub ok-injective {ℓ} : {A : Type ℓ} {a b : A} → ok a ≡ ok b → a ≡ b
ok-injective h = cc

-- To split on a result and keep the equation.
pub Result-cases {ℓ} :
    {A : Type ℓ} (r : Result A) → ((e : Error) × (r ≡ err e)) ⊎ ((a : A) × (r ≡ ok a))
Result-cases (err e) = inl (e, refl)
Result-cases (ok a) = inr (a, refl)
