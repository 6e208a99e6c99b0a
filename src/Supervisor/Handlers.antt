-- ===== src/Supervisor/Handlers.antt =====
-- Each reaction of the supervisor keeps its state valid.
use mpfc.Prelude.{
  ℕ, ◌+◌, String, ◌≡◌, refl, ap, Bool, true, false, Option, none, some, arith, nat_equality,
  string_equality, pair_equality, if◌then◌else◌,
}
use mpfc.Supervisor.{Supervisor, first_reason, request_shutdown}

abbrev pub started_count : Option ℕ → ℕ
started_count none = 0
started_count (some _) = 1

-- A failure or a begun shutdown is a requested one, and the shutdown is announced once.
pub record IsValid (s : Supervisor) : Type 0 where
  pub failed_stops : (text : String) → s.failure_reason ≡ some text → s.shutdown_requested ≡ true
  pub started_stops : (began : ℕ) → s.shutdown_started_at ≡ some began → s.shutdown_requested ≡ true
  pub announced_once : s.announced ≡ started_count s.shutdown_started_at

-- Nothing of a shutdown is withdrawn.
pub record Keeps (s s' : Supervisor) : Type 0 where
  pub stays : s.shutdown_requested ≡ true → s'.shutdown_requested ≡ true
  pub first_failure : (text : String) → s.failure_reason ≡ some text → s'.failure_reason ≡ some text
  pub first_start :
      (began : ℕ) → s.shutdown_started_at ≡ some began → s'.shutdown_started_at ≡ some began

pub Keeps-trans : (a b c : Supervisor) → Keeps a b → Keeps b c → Keeps a c
Keeps-trans a b c x y = record {
  stays = λ h. y.stays (x.stays h);
  first_failure = λ text h. y.first_failure text (x.first_failure text h);
  first_start = λ began h. y.first_start began (x.first_start began h);
}

-- A step that keeps the invariant and withdraws nothing.
unfoldable pub IsSound : Supervisor → Supervisor → Type 0
IsSound s s' = IsValid s' × Keeps s s'

pub if-IsSound :
    (s x y : Supervisor) (b : Bool) → IsSound s x → IsSound s y → IsSound s (if b then x else y)
unfolding IsSound
if-IsSound s x y true hx hy = hx
if-IsSound s x y false hx hy = hy

pub choose-IsSound :
    (s x y : Supervisor) (b : Bool)
    → (b ≡ true → IsSound s x)
    → (b ≡ false → IsSound s y)
    → IsSound s (if b then x else y)
unfolding IsSound
choose-IsSound s x y true hx hy = hx refl
choose-IsSound s x y false hx hy = hy refl

pub same-IsSound : (s : Supervisor) → IsValid s → IsSound s s
unfolding IsSound
same-IsSound s v = (v, record { stays = λ h. h; first_failure = λ _ h. h; first_start = λ _ h. h })

pub request-IsSound : (s : Supervisor) → IsValid s → IsSound s (request_shutdown s)
unfolding IsSound
request-IsSound s v = (
  record {
    failed_stops = λ _ _. refl;
    started_stops = λ _ _. refl;
    announced_once = v.announced_once;
  },
  record { stays = λ _. refl; first_failure = λ _ h. h; first_start = λ _ h. h },
)

pub report-IsSound :
    (s : Supervisor) (text : String)
    → IsValid s
    → IsSound s
        (request_shutdown (record s { failure_reason = first_reason s.failure_reason text }))
unfolding IsSound
report-IsSound s text v = (
  record {
    failed_stops = λ _ _. refl;
    started_stops = λ _ _. refl;
    announced_once = v.announced_once;
  },
  record {
    stays = λ _. refl;
    first_failure = λ _ h. ap (λ o. first_reason o text) h;
    first_start = λ _ h. h;
  },
)

pub fail-IsSound :
    (s : Supervisor) (text : String)
    → IsValid s
    → s.shutdown_requested ≡ false
    → IsSound s (request_shutdown (record s { failure_reason = some text }))
unfolding IsSound
fail-IsSound s text v running = (
  record {
    failed_stops = λ _ _. refl;
    started_stops = λ _ _. refl;
    announced_once = v.announced_once;
  },
  record {
    stays = λ _. refl;
    first_failure = λ other h. absurd (ground (arith, v.failed_stops other h, running));
    first_start = λ _ h. h;
  },
)

pub start-IsSound :
    (s : Supervisor) (clock : ℕ)
    → IsValid s
    → s.shutdown_requested ≡ true
    → s.shutdown_started_at ≡ none
    → IsSound s (record s { shutdown_started_at = some clock; announced = s.announced + 1 })
unfolding IsSound
start-IsSound s clock v stopping idle = (
  record {
    failed_stops = v.failed_stops;
    started_stops = λ _ _. stopping;
    announced_once = ground (arith, v.announced_once, idle);
  },
  record {
    stays = λ h. h;
    first_failure = λ _ h. h;
    first_start = λ began h. absurd (ground (arith, h, idle));
  },
)
