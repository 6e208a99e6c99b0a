-- ===== src/Ingress/Outcome.antt =====
-- What `_execute_remote` reports about an execution, and the state that it leaves.
use mathlib.Core.List.{append_assoc}
use mpfc.Prelude.{
  String, ◌≡◌, refl, ap, ◌∙◌, ◌⊎◌, inl, inr, true, false, Option, none, some, List, [], ◌∷◌, ◌++◌,
  nat_equality, string_equality, pair_equality, Bool-cases,
}
use mpfc.Exec.{ErrorClass, Error, error, is_exception, Result, ok, err}
use mpfc.Ingress.{
  GlobalPosition, LocationState, RemoteExecution, Sent, Settings, ExecutionIngress, send,
}
use mpfc.Ingress.Store.{send_acceptance}
use mpfc.Ingress.Keeping.{resolve_move_destination}
use mpfc.Ingress.Vehicle.{World}
use mpfc.Ingress.Execute.{
  finish, accept, location_now, conclude, refuse, execute_move, execute_remote,
}
use mpfc.Ingress.Track.{Metric, success_report, queued_report, failure_report}
use mpfc.Ingress.Reports.{decisions, decisions-send, decisions-decide}
use mpfc.Ingress.Arrival.{IsThere, Moved, execute_move-Moved}

abbrev pub IsIdle : ExecutionIngress → Type 0
IsIdle g =
    (g.lifecycle_state ≡ "IDLE") × (g.active_execution_id ≡ none) × (g.active_dispatch_id ≡ none)

abbrev pub accepted_report : RemoteExecution → Sent
accepted_report r = Sent.acceptance (record {
  dest = r.source;
  execution_uid = r.bundle.execution.uid;
  dispatch_ref = r.dispatch_id;
  accepted = true;
  retryable = false;
  reason = none;
})

-- The acceptance and the queued report come first.
abbrev pub opening : RemoteExecution → List Sent
opening r = accepted_report r ∷ queued_report r ∷ []

module _ (distance_m : Metric) (s : Settings) (r : RemoteExecution) (d : GlobalPosition) where
  -- A terminal report: success from where the vehicle is at the destination, or failure.
  abbrev pub IsTerminal : Sent → Type 0
  IsTerminal m =
      ((here : LocationState) × IsThere distance_m s d here × (m ≡ success_report r here))
      ⊎ ((here : Option LocationState) × (text : String) × (m ≡ failure_report r here text))

  abbrev pub Reported : ExecutionIngress → Option (Result (Unit {0}) × World) → Type 0
  Reported g none = Unit
  Reported g (some (ok _, w)) =
      IsIdle w.ingress
      × ((m : Sent) × IsTerminal m × (decisions w.ingress ≡ decisions g ++ opening r ++ m ∷ []))
  Reported g (some (err e, w)) =
      IsIdle w.ingress × (is_exception e ≡ false) × (decisions w.ingress ≡ decisions g ++ opening r)

finish-IsIdle : (g : ExecutionIngress) → IsIdle (finish g)
unfolding finish
finish-IsIdle g = (refl, refl, refl)

decisions-finish : (g : ExecutionIngress) → decisions (finish g) ≡ decisions g
unfolding finish
decisions-finish g =
    decisions-send (Sent.lifecycle "IDLE" none)
      (record g { active_execution_id = none; active_dispatch_id = none; lifecycle_state = "IDLE" })
      refl

decisions-opening :
    (r : RemoteExecution) (g : ExecutionIngress)
    → decisions (send (queued_report r) (accept r g)) ≡ decisions g ++ opening r
unfolding accept send_acceptance
decisions-opening r g =
    let started = record g {
      active_execution_id = some r.bundle.execution.uid;
      active_dispatch_id = some r.dispatch_id;
      lifecycle_state = "EXECUTING";
    } in
    let announced = send (Sent.lifecycle "EXECUTING" (some r.dispatch_id)) started in
    decisions-decide (queued_report r) (accept r g) refl
    ∙ ap (λ ms. ms ++ queued_report r ∷ [])
        (decisions-decide (accepted_report r) announced refl
          ∙ ap (λ ms. ms ++ accepted_report r ∷ [])
              (decisions-send (Sent.lifecycle "EXECUTING" (some r.dispatch_id)) started refl))
    ∙ append_assoc (decisions g) (accepted_report r ∷ []) (queued_report r ∷ [])

module _ (distance_m : Metric) (s : Settings) (r : RemoteExecution) (d : GlobalPosition) where
  conclude-Reported :
      (g g' : ExecutionIngress) (o : Result (Unit {0}) × World)
      → decisions g' ≡ decisions g ++ opening r
      → Moved distance_m s r d g' (some o)
      → Reported distance_m s r d g (some (conclude r o))
  unfolding conclude
  conclude-Reported g g' (ok u, w) h (here, there, k) = (
    finish-IsIdle w.ingress,
    (
      success_report r here,
      inl (here, there, refl),
      decisions-finish w.ingress ∙ k ∙ ap (λ ms. ms ++ success_report r here ∷ []) h,
    ),
  )
  conclude-Reported g g' (err e, w) h k = elim (Bool-cases (is_exception e)) [
    | inl caught ↦
        rw (caught, conclude)
          (
            finish-IsIdle (send (failure_report r (location_now w) e.text) w.ingress),
            (
              failure_report r (location_now w) e.text,
              inr (location_now w, e.text, refl),
              decisions-finish (send (failure_report r (location_now w) e.text) w.ingress)
                  ∙ decisions-decide (failure_report r (location_now w) e.text) w.ingress refl
                  ∙ ap (λ ms. ms ++ failure_report r (location_now w) e.text ∷ []) (k ∙ h),
            ),
          )
    | inr passes ↦
        rw (passes, conclude) (finish-IsIdle w.ingress, passes, decisions-finish w.ingress ∙ k ∙ h)
  ]

-- An execution whose destination resolves is accepted and reported as queued, and then gets exactly
-- one terminal report, whatever else is sent: SUCCEEDED, from where the vehicle is within the radius
-- and the tolerance of the destination, or FAILED. Only an exit that no handler catches leaves the
-- terminal report out. The ingress is idle in the end, and nothing else has been accepted or decided.
pub execute_remote-Reported :
    (distance_m : Metric) (s : Settings) (r : RemoteExecution) (d : GlobalPosition) (w : World)
    → resolve_move_destination r.source r.bundle.task w.ingress.records ≡ ok d
    → Reported distance_m s r d w.ingress (execute_remote distance_m s r w)
unfolding execute_remote
execute_remote-Reported distance_m s r d w h =
    rw (h, execute_remote)
      (go (execute_move distance_m s r d begun) (execute_move-Moved distance_m s r d begun))
  where
    begun : World
    begun = record w { ingress = send (queued_report r) (accept r w.ingress) }

    go :
        (o : Option (Result (Unit {0}) × World))
        → Moved distance_m s r d begun.ingress o
        → Reported distance_m s r d w.ingress (elim o as (λ _. Option (Result (Unit {0}) × World)) [
          | none ↦ none
          | some outcome ↦ some (conclude r outcome)
        ])
    go none k = tt
    go (some o) k =
        conclude-Reported distance_m s r d w.ingress begun.ingress o (decisions-opening r w.ingress)
          k

-- An execution whose destination does not resolve is not answered: `_execute_remote` raises an
-- AttributeError, and its source is sent neither an acceptance nor a refusal.
pub execute_remote_unanswered :
    (distance_m : Metric) (s : Settings) (r : RemoteExecution) (e : Error) (w : World)
    → resolve_move_destination r.source r.bundle.task w.ingress.records ≡ err e
    → execute_remote distance_m s r w
      ≡ some (
        err (error ErrorClass.attribute_error "'ExecutionBundle' object has no attribute 'uid'"),
        record w {
          ingress = record w.ingress {
            active_execution_id = none;
            active_dispatch_id = none;
            lifecycle_state = "IDLE";
            sent = w.ingress.sent ++ Sent.lifecycle "IDLE" none ∷ [];
          };
        },
      )
unfolding execute_remote refuse send_acceptance finish
execute_remote_unanswered distance_m s r e w h = rw (h, execute_remote) refl
