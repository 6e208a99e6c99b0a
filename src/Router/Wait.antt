-- ===== src/Router/Wait.antt =====
-- Waiting for a response ends.
use mpfc.Prelude.{
  refl, ap, ◌∙◌, ◌++◌, ge→ltb, Bool-cases, ℕ, ◌≤◌, ◌<◌, String, ◌≡◌, ◌≢◌, ◌⊎◌, inl, inr, true,
  Option, none, some, List, [], ◌∷◌, arith, nat_equality, string_equality, pair_equality,
  Option-cases,
}
use mpfc.Dict.{Dict, lookup, insert, remove}
use mpfc.Dict.Laws.{lookup-insert_self, lookup-remove_self}
use mpfc.Exec.{Result, ok, err, ◌>>=◌}
use mpfc.Json.{Value, str, get_item}
use mpfc.Router.{
  after, find_handler, convert, log_state, on_state, on_set, unwrap, Handler, BusRouter, Poll,
  among, pump_once, dispatch, on_response, remember, take_response, wait_response,
}

-- Some turn begins behind the deadline.
abbrev pub Overdue : ℕ → List Poll → Type 0
Overdue deadline [] = ⊥
Overdue deadline (p ∷ ps) = (deadline < p.clock) ⊎ Overdue deadline ps

-- Once a turn begins behind the deadline, the wait has ended: with a response, with the timeout, or
-- with what a pump raised.
pub wait_response_ends :
    (deadline : ℕ) (request_id : String) (polls : List Poll) (r : BusRouter)
    → Overdue deadline polls
    → wait_response deadline request_id polls r ≢ none
unfolding wait_response
wait_response_ends deadline id [] r h = absurd h
wait_response_ends deadline id (p ∷ ps) r h =
    ground (arith, wait_response_ends deadline id ps (pump_once p.clock p.received r).1)

abbrev pub IsTaken : String → Result Value → BusRouter → Type 0
IsTaken id (ok v) r = lookup id r.responses ≡ none
IsTaken id (err e) r = Unit

abbrev pub EndsTaken : String → Option (Result Value × BusRouter) → Type 0
EndsTaken id none = Unit
EndsTaken id (some (result, r)) = IsTaken id result r

take_response-EndsTaken : (id : String) (r : BusRouter) → EndsTaken id (take_response id r)
unfolding take_response
take_response-EndsTaken id r = elim (Option-cases (lookup id r.responses)) [
  | inl no_response ↦ rw (no_response, take_response, EndsTaken) tt
  | inr (v, e) ↦ rw (e, take_response, EndsTaken) (lookup-remove_self id r.responses)
]

-- A response that a wait returns is handed out once: it is gone from the router.
pub wait_response-EndsTaken :
    (deadline : ℕ) (request_id : String) (polls : List Poll) (r : BusRouter)
    → EndsTaken request_id (wait_response deadline request_id polls r)
unfolding wait_response
wait_response-EndsTaken deadline id [] r = take_response-EndsTaken id r
wait_response-EndsTaken deadline id (p ∷ ps) r = ground (
  arith,
  take_response-EndsTaken id r,
  wait_response-EndsTaken deadline id ps (pump_once p.clock p.received r).1,
)

wait_response_ready :
    (deadline : ℕ) (id : String) (v : Value) (polls : List Poll) (r : BusRouter)
    → lookup id r.responses ≡ some v
    → wait_response deadline id polls r
      ≡ some (ok v, record r { responses = remove id r.responses })
unfolding wait_response take_response
wait_response_ready deadline id v [] r h = ground arith
wait_response_ready deadline id v (p ∷ ps) r h = ground arith

dispatch-response :
    (now : ℕ) (id topic : String) (payload response : Value) (r : BusRouter)
    → lookup topic r.state_topics ≡ none
    → among topic r.response_topics ≡ true
    → get_item "data" payload ≡ ok response
    → get_item "request_id" response ≡ ok (str id)
    → dispatch now (topic, payload) r
      ≡ (ok (some (topic, payload)), record r { responses = insert id response r.responses })
unfolding dispatch on_response remember
dispatch-response now id topic payload response r plain routed d i = ground arith

wait_response_arrives :
    (deadline clock : ℕ) (id topic : String) (payload response : Value) (polls : List Poll)
    (r : BusRouter)
    → lookup id r.responses ≡ none
    → clock ≤ deadline
    → lookup topic r.state_topics ≡ none
    → among topic r.response_topics ≡ true
    → get_item "data" payload ≡ ok response
    → get_item "request_id" response ≡ ok (str id)
    → wait_response deadline id
        (record { clock = clock; received = ok (some (topic, payload)) } ∷ polls)
        r
      ≡ some (ok response, record r { responses = remove id (insert id response r.responses) })
unfolding wait_response take_response pump_once
wait_response_arrives deadline clock id topic payload response polls r waiting early plain routed d
      i =
    let r' = record r { responses = insert id response r.responses } in
    ground (
      arith,
      dispatch-response clock id topic payload response r plain routed d i,
      wait_response_ready deadline id response polls r'
          (lookup-insert_self id response r.responses),
    )

-- What pumping leaves of the tables that route messages.
abbrev SameRoutes : BusRouter → BusRouter → Type 0
SameRoutes r r' = (r'.state_topics ≡ r.state_topics) × (r'.response_topics ≡ r.response_topics)

log_state-SameRoutes : (key : String) (now : ℕ) (r : BusRouter) → SameRoutes r (log_state key now r)
unfolding log_state
log_state-SameRoutes key now r = ground arith

-- What a handler returns.
abbrev Returns : BusRouter → Result BusRouter → Type 0
Returns r (ok r') = SameRoutes r r'
Returns r (err e) = Unit

bind-Returns :
    {A : Type 0} (r : BusRouter) (o : Result A) (next : A → Result BusRouter)
    → ((a : A) → Returns r (next a))
    → Returns r (o >>= next)
bind-Returns r (ok a) next h = h a
bind-Returns r (err e) next h = tt

remember-Returns : (id response : Value) (r : BusRouter) → Returns r (remember id response r)
unfolding remember
remember-Returns id response r = ground arith

on_state-Returns :
    (key : String) (now : ℕ) (payload : Value) (r : BusRouter)
    → Returns r (on_state key now payload r)
unfolding on_state
on_state-Returns key now payload r =
    bind-Returns r (get_item "data" payload) _
      (λ v. log_state-SameRoutes key now (record r { state = insert key (unwrap key v) r.state }))

on_response-Returns : (payload : Value) (r : BusRouter) → Returns r (on_response payload r)
unfolding on_response
on_response-Returns payload r = bind-Returns r (get_item "data" payload) _ (λ response.
    bind-Returns r (get_item "request_id" response) _ (λ id. remember-Returns id response r))

on_set-Returns :
    (handlers : Dict String Handler) (payload : Value) (r : BusRouter)
    → Returns r (on_set handlers payload r)
unfolding on_set
on_set-Returns handlers payload r = bind-Returns r (get_item "data" payload) _ (λ command.
    bind-Returns r (get_item "name" command) _ (λ name.
      bind-Returns r (get_item "value" command) _ (λ value.
        bind-Returns r (find_handler name handlers) _
          (λ handler. bind-Returns r (convert handler.cast value) _ (λ new_value. (refl, refl))))))

after-SameRoutes :
    {A : Type 0} (a : A) (r : BusRouter) (o : Result BusRouter)
    → Returns r o
    → SameRoutes r (after a r o).1
after-SameRoutes a r (ok r') h = h
after-SameRoutes a r (err e) h = (refl, refl)

pump_once-SameRoutes :
    (now : ℕ) (received : Result (Option (String × Value))) (r : BusRouter)
    → SameRoutes r (pump_once now received r).1
unfolding pump_once dispatch
pump_once-SameRoutes now (err e) r = (refl, refl)
pump_once-SameRoutes now (ok none) r = (refl, refl)
pump_once-SameRoutes now (ok (some (topic, payload))) r =
    elim (Option-cases (lookup topic r.state_topics)) [
      | inr (key, f) ↦
          rw (f, dispatch)
            (after-SameRoutes _ r (on_state key now payload r) (on_state-Returns key now payload r))
      | inl plain ↦
          rw (plain, dispatch)
            (elim (Bool-cases (among topic r.response_topics)) [
              | inl routed ↦
                  rw (routed, dispatch)
                    (after-SameRoutes _ r (on_response payload r) (on_response-Returns payload r))
              | inr other ↦
                  rw (other, dispatch)
                    (elim (Option-cases (lookup topic r.set_attr_handlers)) [
                      | inl none_set ↦ rw (none_set, dispatch) (refl, refl)
                      | inr (handlers, f) ↦
                          rw (f, dispatch)
                            (after-SameRoutes _ r (on_set handlers payload r)
                              (on_set-Returns handlers payload r))
                    ])
            ])
    ]

-- The router behind the pumps of some polls.
unfoldable pub pumped : List Poll → BusRouter → BusRouter
pumped [] r = r
pumped (p ∷ ps) r = pumped ps (pump_once p.clock p.received r).1

-- Polls before the deadline whose pumps raise nothing and leave no response for the id, whatever else they
-- bring.
abbrev pub IsQuiet : ℕ → String → List Poll → BusRouter → Type 0
IsQuiet deadline id [] r = Unit
IsQuiet deadline id (p ∷ ps) r =
    let (result, r') = pump_once p.clock p.received r in
    (p.clock ≤ deadline)
    × ((m : Option (String × Value)) × (result ≡ ok m))
    × (lookup id r'.responses ≡ none)
    × IsQuiet deadline id ps r'

-- A response for an id that has none yet, which comes by a response topic before the deadline, behind any
-- polls before the deadline that raise nothing and bring none for the id, is what the wait returns, whatever
-- comes behind it; and it is gone from the router.
pub wait_response_delivers :
    (deadline clock : ℕ) (id topic : String) (payload response : Value) (before behind : List Poll)
    (r : BusRouter)
    → lookup id r.responses ≡ none
    → IsQuiet deadline id before r
    → clock ≤ deadline
    → lookup topic r.state_topics ≡ none
    → among topic r.response_topics ≡ true
    → get_item "data" payload ≡ ok response
    → get_item "request_id" response ≡ ok (str id)
    → let r' = pumped before r in
      wait_response deadline id
        (before ++ record { clock = clock; received = ok (some (topic, payload)) } ∷ behind)
        r
      ≡ some (ok response, record r' { responses = remove id (insert id response r'.responses) })
unfolding wait_response pumped take_response
wait_response_delivers deadline clock id topic payload response [] behind r waiting quiet early
      plain routed d i =
    wait_response_arrives deadline clock id topic payload response behind r waiting early plain
      routed d i
wait_response_delivers deadline clock id topic payload response (p ∷ ps) behind r waiting
      (in_time, (m, pumps), none_yet, quiet) early plain routed d i =
    let r' = (pump_once p.clock p.received r).1 in
    let (states, responses) = pump_once-SameRoutes p.clock p.received r in
    let later =
      wait_response_delivers deadline clock id topic payload response ps behind r' none_yet quiet
        early (ap (lookup topic) states ∙ plain) (ap (among topic) responses ∙ routed) d i in
    rw (waiting, wait_response)
      (rw (ge→ltb _ _ in_time, wait_response) (rw (pumps, wait_response) later))
