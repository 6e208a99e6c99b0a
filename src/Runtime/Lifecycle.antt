-- ===== src/Runtime/Lifecycle.antt =====
-- Stopping, shutdown and bounded waits.
use mathlib.Core.List.{Memᴰ}
use mpfc.Prelude.{
  ◌<◌, ◌≤◌, Bool-cases, ltb, ltb→lt, ltb→ge, ℕ, String, ◌≡◌, refl, ap, ◌∙◌, ◌≢◌, ◌⊎◌, inl, inr,
  Bool, true, false, Option, none, some, List, [], ◌∷◌, ◌++◌, arith, nat_equality, string_equality,
  pair_equality, ne→beq,
}
use mpfc.Exec.{ErrorClass, Error, Result, ok, err, raise, Result-cases}
use mathlib.Core.List.{append-nil}
use text.Mathlib.TextLemmas.{append_assoc}
use mpfc.Text.{◌<>◌}
use mpfc.Mqtt.Prefix.{strip_prefix, strip_prefix-append}
use mpfc.Json.{Value, build_envelope, dict, end}
use mpfc.Mqtt.{MqttBusClient, full_topic, publish, close}
use mpfc.Router.{BusRouter, Poll, pump_once}
use mpfc.Router.Wait.{Overdue}
use mpfc.Runtime.{
  Runtime, Response, Role, plugin, core, control_shutdown_topic, diag_topic, event_payload, post,
  post_event, stop, on_control_shutdown, handle_received, publish_error, flush_queue, post_all,
  wait_until,
}

-- A closed client publishes nothing.
post-closed :
    (topic : String) (v : Value) (c : MqttBusClient) → c.closed ≡ true → post topic v c ≡ c
unfolding post publish
post-closed topic v c h = ground arith

post_all-closed :
    (id topic : String) (now : ℕ) (rs : List Response) (c : MqttBusClient)
    → c.closed ≡ true
    → post_all id topic now rs c ≡ c
unfolding post_all
post_all-closed id topic now [] c h = refl
post_all-closed id topic now (r ∷ rs) c h =
    rw (post-closed topic _ c h) (post_all-closed id topic now rs c h)

-- A runtime that has stopped is closed.
record IsStopped (r : Runtime) : Type 0 where
  stopped : r.stopped ≡ true
  closed : r.client.closed ≡ true

stop-IsStopped : (now : ℕ) (r : Runtime) → r.stopped ≡ false → IsStopped (stop now r)
unfolding stop close
stop-IsStopped now r h = ground arith

stop-stopped : (now : ℕ) (r : Runtime) → IsStopped r → stop now r ≡ r
unfolding stop
stop-stopped now r v = ground (arith, v.stopped)

publish_error-stopped :
    (trace : String) (now : ℕ) (r : Runtime) → IsStopped r → publish_error trace now r ≡ r
unfolding publish_error
publish_error-stopped trace now r v =
    ap (λ c. record r { client = c })
      (post-closed (diag_topic r.client_id "ERROR") _ r.client v.closed)

-- A runtime that runs and is stopped stays as that stop left it: a second stop changes nothing,
-- and an error report and a flush of the queue put nothing on the wire.
pub stop_final :
    (now later : ℕ) (trace topic : String) (r : Runtime)
    → r.stopped ≡ false
    → let s = stop now r in
      (stop later s ≡ s)
      × (publish_error trace later s ≡ s)
      × ((flush_queue topic later s).client ≡ s.client)
unfolding publish_error flush_queue
stop_final now later trace topic r h =
    let v = stop-IsStopped now r h in
    let s = stop now r in
    (
      stop-stopped later s v,
      publish_error-stopped trace later s v,
      post_all-closed s.client_id topic later s.response_queue s.client v.closed,
    )

-- A client that is open, has no background error and whose publishes paho takes.
pub record IsOpen (c : MqttBusClient) : Type 0 where
  pub opened : c.closed ≡ false
  pub clean : c.background_error ≡ none

post-IsOpen :
    (topic : String) (v : Value) (c : MqttBusClient)
    → IsOpen c
    → post topic v c ≡ record c { wire = c.wire ++ (full_topic c topic, v) ∷ [] }
unfolding post publish
post-IsOpen topic v c h = ground (arith, h.opened, h.clean)

-- What a shutdown puts on the wire.
abbrev pub shutdown_messages : Role → ℕ → Runtime → List (String × Value)
shutdown_messages plugin now r = []
shutdown_messages core now r =
    (
      full_topic r.client control_shutdown_topic,
      build_envelope r.client_id control_shutdown_topic now (dict end),
    )
    ∷ []

abbrev pub stopped_message : ℕ → Runtime → String × Value
stopped_message now r =
    let topic = diag_topic r.client_id "STOPPED" in
    (full_topic r.client topic, build_envelope r.client_id topic now (event_payload "STOPPED"))

stop-wire :
    (now : ℕ) (r : Runtime)
    → r.stopped ≡ false
    → IsOpen r.client
    → let r' = stop now r in
      (r'.stopped ≡ true)
      × (r'.client.closed ≡ true)
      × (r'.client.wire ≡ r.client.wire ++ stopped_message now r ∷ [])
unfolding stop post_event close
stop-wire now r running opened =
    let topic = diag_topic r.client_id "STOPPED" in
    ground (
      arith,
      post-IsOpen topic (build_envelope r.client_id topic now (event_payload "STOPPED")) r.client
          opened,
    )

Role-cases : (r : Role) → (r ≡ plugin) ⊎ (r ≡ core)
Role-cases plugin = inl refl
Role-cases core = inr refl

on_control_shutdown-wire :
    (now : ℕ) (r : Runtime)
    → r.stopped ≡ false
    → IsOpen r.client
    → let r' = on_control_shutdown now r in
      (r'.stopped ≡ true)
      × (r'.client.closed ≡ true)
      × (r'.client.wire
          ≡ (r.client.wire ++ shutdown_messages r.role now r) ++ stopped_message now r ∷ [])
unfolding on_control_shutdown full_topic
on_control_shutdown-wire now r running opened = elim (Role-cases r.role) [
  | inl e ↦ ground (arith, e, stop-wire now r running opened, append-nil r.client.wire)
  | inr e ↦
      let payload = build_envelope r.client_id control_shutdown_topic now (dict end) in
      let c' = record r.client {
        wire = r.client.wire ++ (full_topic r.client control_shutdown_topic, payload) ∷ [];
      } in
      ground (
        arith,
        e,
        post-IsOpen control_shutdown_topic payload r.client opened,
        stop-wire now (record r { client = c' }) running
            (record { opened = opened.opened; clean = opened.clean }),
      )
]

control-ne-diag : (id event : String) → control_shutdown_topic ≢ diag_topic id event
unfolding diag_topic strip_prefix
control-ne-diag id event e =
    let f : control_shutdown_topic ≡ "DIAG/" <> (id <> ("/" <> event)) =
      e ∙ append_assoc ("DIAG/" <> id) "/" event ∙ append_assoc "DIAG/" id ("/" <> event) in
    cc (strip_prefix-append "DIAG/" (id <> ("/" <> event)), ap (strip_prefix "DIAG/") f)

-- On CONTROL/SHUTDOWN a running runtime raises SystemExit instead of handing the message on. A
-- plugin announces STOPPED; a core passes the shutdown on first; and both are closed.
pub shutdown_announced :
    (now : ℕ) (message : Value) (r : Runtime)
    → r.stopped ≡ false
    → IsOpen r.client
    → let (result, r') = handle_received now (ok (some (control_shutdown_topic, message))) r in
      (result ≡ raise ErrorClass.system_exit "shutdown")
      × (r'.stopped ≡ true)
      × (r'.client.closed ≡ true)
      × (r'.client.wire
          ≡ (r.client.wire ++ shutdown_messages r.role now r) ++ stopped_message now r ∷ [])
unfolding handle_received
shutdown_announced now message r running opened =
    let w = on_control_shutdown-wire now r running opened in
    rw (ne→beq control_shutdown_topic _ (control-ne-diag r.client_id "PING"), handle_received)
      (refl, w.0, w.1, w.2)

-- The error of a wait: the timeout's, in a state in which the condition does not hold, or what a pump raised
-- before the deadline.
pub data FailsWith (condition : BusRouter → Bool) (deadline : ℕ) (timeout_error : Error)
    (on_tick : BusRouter → BusRouter) (polls : List Poll) (e : Error) (r : BusRouter) : Type 0 where
  timed_out :
      (p : Poll)
      → Memᴰ p polls
      → e ≡ timeout_error
      → condition r ≡ false
      → deadline < p.clock
      → FailsWith condition deadline timeout_error on_tick polls e r
  pump_raised :
      (p : Poll) (s : BusRouter)
      → Memᴰ p polls
      → condition s ≡ false
      → p.clock ≤ deadline
      → pump_once p.clock p.received (on_tick s) ≡ (err e, r)
      → FailsWith condition deadline timeout_error on_tick polls e r

-- A wait that ends well ends in a state in which its condition holds.
abbrev pub EndsWith :
    (BusRouter → Bool)
    → ℕ
    → Error
    → (BusRouter → BusRouter)
    → List Poll
    → Option (Result (Unit {0}) × BusRouter)
    → Type 0
EndsWith condition deadline timeout_error on_tick polls none = Unit
EndsWith condition deadline timeout_error on_tick polls (some (ok _, r)) = condition r ≡ true
EndsWith condition deadline timeout_error on_tick polls (some (err e, r)) =
    FailsWith condition deadline timeout_error on_tick polls e r

module _ (condition : BusRouter → Bool) (deadline : ℕ) (timeout_error : Error)
    (on_tick : BusRouter → BusRouter) where
  EndsWith-later :
      (p : Poll) (ps : List Poll) (o : Option (Result (Unit {0}) × BusRouter))
      → EndsWith condition deadline timeout_error on_tick ps o
      → EndsWith condition deadline timeout_error on_tick (p ∷ ps) o
  EndsWith-later p ps none h = tt
  EndsWith-later p ps (some (ok _, r)) h = h
  EndsWith-later p ps (some (err e, r)) (FailsWith.timed_out q at same fails late) =
      FailsWith.timed_out q (Memᴰ.tail at) same fails late
  EndsWith-later p ps (some (err e, r)) (FailsWith.pump_raised q s at fails early raised) =
      FailsWith.pump_raised q s (Memᴰ.tail at) fails early raised

  wait_until-ends :
      (polls : List Poll) (r : BusRouter)
      → Overdue deadline polls
      → wait_until condition (some deadline) timeout_error on_tick polls r ≢ none
  unfolding wait_until
  wait_until-ends [] r = ground arith
  wait_until-ends (p ∷ ps) r =
      ground (arith, wait_until-ends ps (pump_once p.clock p.received (on_tick r)).1)

  wait_until-result :
      (polls : List Poll) (r : BusRouter)
      → EndsWith condition deadline timeout_error on_tick polls
          (wait_until condition (some deadline) timeout_error on_tick polls r)
  unfolding wait_until
  wait_until-result [] r = elim (Bool-cases (condition r)) [
    | inl holds ↦ rw (holds, wait_until) holds
    | inr fails ↦ rw (fails, wait_until) tt
  ]
  wait_until-result (p ∷ ps) r = elim (Bool-cases (condition r)) [
    | inl holds ↦ rw (holds, wait_until) holds
    | inr fails ↦
        rw (fails, wait_until)
          (elim (Bool-cases (ltb deadline p.clock)) [
            | inl late ↦
                rw (late, wait_until)
                  (FailsWith.timed_out p (Memᴰ.head refl) refl fails (ltb→lt _ _ late))
            | inr early ↦
                rw (early, wait_until)
                  (elim (Result-cases (pump_once p.clock p.received (on_tick r)).0) [
                    | inl (e, f) ↦
                        rw (f, wait_until)
                          (FailsWith.pump_raised p r (Memᴰ.head refl) fails (ltb→ge _ _ early)
                            (ap (λ x. (x, (pump_once p.clock p.received (on_tick r)).1)) f))
                    | inr (m, f) ↦
                        rw (f, wait_until)
                          (EndsWith-later p ps _
                            (wait_until-result ps (pump_once p.clock p.received (on_tick r)).1))
                  ])
          ])
  ]

-- `wait_until` returns only in a state in which the condition holds; an error is the timeout's, raised
-- behind the deadline in a state in which the condition does not hold, or one that a pump raised before
-- it; and over turns of which one begins behind the deadline it does end.
pub wait_until-EndsWith :
    (condition : BusRouter → Bool) (deadline : ℕ) (timeout_error : Error)
    (on_tick : BusRouter → BusRouter) (polls : List Poll) (r : BusRouter)
    → let result = wait_until condition (some deadline) timeout_error on_tick polls r in
      EndsWith condition deadline timeout_error on_tick polls result
      × (Overdue deadline polls → result ≢ none)
wait_until-EndsWith condition deadline e on_tick polls r = (
  wait_until-result condition deadline e on_tick polls r,
  wait_until-ends condition deadline e on_tick polls r,
)
