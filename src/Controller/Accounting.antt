-- ===== src/Controller/Accounting.antt =====
-- The requests that wait and the responses that are queued, asker by asker, over the events of the
-- controller.
use mathlib.Core.Path.{subst}
use mathlib.Core.Option.{some-injective}
use mpfc.Prelude.{
  ℕ, ◌+◌, String, ◌≡◌, inl, inr, Option, none, some, List, [], ◌∷◌, arith, nat_equality,
  string_equality, pair_equality,
}
use mpfc.Exec.{Result, ok, err, Result-cases}
use mpfc.Json.{Value}
use mpfc.Controller.{Settings, UavController}
use mpfc.Controller.Requesting.{
  forward_backend_response, expired_ids, expire_pending_requests, handle_request,
}
use mpfc.Controller.Soundness.{IsSound, own, balance}
use mpfc.Controller.Counting.{
  asker_of, Accounts, handle_request-Accounts, forward_backend_response-Accounts, expire_ids-Keeps,
}

-- What drives the requests of a controller, with the time at which it happens.
pub data Event : Type 0 where
  request : ℕ → ℕ → Value → Event
  response : Value → Event
  expiry : ℕ → Event

abbrev pub serve : Settings → Event → UavController → Result (Unit {0}) × UavController
serve s (request now wall v) c = handle_request s now wall v c
serve s (response v) c = forward_backend_response s v c
serve s (expiry now) c = (ok tt, expire_pending_requests s now c)

-- The controller behind a row of events, `none` where one of them raises.
unfoldable pub serve_all : Settings → List Event → UavController → Option UavController
serve_all s [] c = some c
serve_all s (e ∷ es) c = elim (serve s e c).0 [
  | ok _ ↦ serve_all s es (serve s e c).1
  | err _ ↦ none
]

-- How many of the events are requests of an asker.
abbrev pub requests : Settings → String → List Event → ℕ
requests s asker [] = 0
requests s asker (request now wall v ∷ es) = own asker (asker_of s v) + requests s asker es
requests s asker (response v ∷ es) = requests s asker es
requests s asker (expiry now ∷ es) = requests s asker es

serve-Accounts :
    (asker : String) (s : Settings) (e : Event) (c : UavController)
    → IsSound c
    → Accounts asker c (requests s asker (e ∷ [])) (serve s e c)
unfolding expire_pending_requests
serve-Accounts asker s (request now wall v) c h =
    let a = handle_request-Accounts asker s now wall v c h in
    record { sound = a.sound; rises = λ returned. omega (arith, a.rises returned) }
serve-Accounts asker s (response v) c h = forward_backend_response-Accounts asker s v c h
serve-Accounts asker s (expiry now) c h =
    let k =
      expire_ids-Keeps asker (expired_ids now s.response_timeout_s c.pending_backend_requests) c
        h in
    record { sound = k.sound; rises = λ _. omega (arith, k.same) }

requests-cons :
    (s : Settings) (asker : String) (e : Event) (es : List Event)
    → requests s asker (e ∷ es) ≡ requests s asker (e ∷ []) + requests s asker es
requests-cons s asker (request now wall v) es = omega arith
requests-cons s asker (response v) es = omega arith
requests-cons s asker (expiry now) es = omega arith

-- Over any row of requests, backend responses and expiries that raises nothing, from a state with
-- distinct waiting ids and free ids to come: for every asker, the requests that still wait under its id
-- and the queued responses to it together rise by the number of its requests. The state is again such
-- a one.
pub serve_all-balance :
    (s : Settings) (es : List Event) (c d : UavController)
    → IsSound c
    → serve_all s es c ≡ some d
    → IsSound d × ((asker : String) → balance asker d ≡ balance asker c + requests s asker es)
unfolding serve_all
serve_all-balance s [] c d h e =
    (subst IsSound (some-injective c d e) h, λ asker. rw (some-injective c d e) (omega arith))
serve_all-balance s (x ∷ es) c d h e = elim (Result-cases (serve s x c).0) [
  | inl (_, f) ↦ cc (rw (f, serve_all) at e)
  | inr (u, f) ↦
      let r =
        serve_all-balance s es (serve s x c).1 d (serve-Accounts "" s x c h).sound
          (rw (f, serve_all) at e) in
      (
        r.0,
        λ asker.
            omega (
              arith,
              r.1 asker,
              (serve-Accounts asker s x c h).rises f,
              requests-cons s asker x es,
            ),
      )
]
