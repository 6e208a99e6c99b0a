-- ===== src/Ingress/Assembly.antt =====
-- Which executions `_assemble_ready` hands out.

use mpfc.Prelude.{
  String, ◌≡◌, refl, ap, ◌∙◌, inl, inr, true, false, none, List, [], ◌∷◌, arith, nat_equality,
  string_equality, pair_equality, ◌==◌, Bool-cases, Option-cases, All, All-append,
}
use mpfc.Dict.{Dict, lookup, remove}
use mpfc.Dict.Laws.{lookup-remove_self, lookup-remove_absent}
use mpfc.Exec.{Result, ok, err, Result-cases}
use mpfc.Ingress.{Execution, RemoteExecution, Model, Settings, ExecutionIngress}
use mpfc.Ingress.Bundle.{validate_execution_bundle}
use mpfc.Ingress.Store.{Inbound, send_acceptance, admit, assemble, assemble_ready, ingest_occid}
use mpfc.Ingress.Keeping.{Ready, find_ready, store_model}
use mpfc.Ingress.Validation.{IsExecutable, validate_execution_bundle_iff}

-- An execution that may run: its records fit, and its source has no pending execution under its
-- dispatch id any more.
abbrev pub IsReady : Settings → String → ExecutionIngress → RemoteExecution → Type 0
IsReady s source g r =
    IsExecutable r.bundle s.executor_uid s.asset_uid
    × (r.source ≡ source)
    × (lookup (source, r.dispatch_id) g.pending_executions ≡ none)

admit-pending :
    (s : Settings) (source id : String) (e : Execution) (found : Ready) (g : ExecutionIngress)
    → (admit s source id e found g).1.pending_executions ≡ remove (source, id) g.pending_executions
unfolding admit send_acceptance
admit-pending s source id e found g = ground arith

assemble-absent :
    (s : Settings) (source : String) (pending : Dict (String × String) Execution)
    (g : ExecutionIngress) (k : String × String)
    → lookup k g.pending_executions ≡ none
    → lookup k (assemble s source pending g).1.pending_executions ≡ none
unfolding assemble
assemble-absent s source [] g k h = h
assemble-absent s source (((from, id), e) ∷ rest) g k h =
    elim (Option-cases (find_ready source e g.records)) [
      | inl missing ↦ ground (arith, missing, assemble-absent s source rest g k h)
      | inr (found, f) ↦ ground (
        arith,
        f,
        assemble-absent s source rest g k h,
        assemble-absent s source rest (admit s source id e found g).1 k (
            ap (lookup k) (admit-pending s source id e found g)
            ∙ lookup-remove_absent (source, id) k g.pending_executions h),
      )
    ]

admit-IsReady :
    (s : Settings) (source id : String) (e : Execution) (found : Ready) (g : ExecutionIngress)
    → All (IsReady s source (admit s source id e found g).1) (admit s source id e found g).0
unfolding admit
admit-IsReady s source id e found g =
    elim (Result-cases (
      validate_execution_bundle (Model.execution e) (Model.assignment found.assignment)
        (Model.task found.task) (Model.plan found.plan) s.executor_uid s.asset_uid)) [
          | inl (x, f) ↦ rw (f, admit) tt
          | inr (b, f) ↦
              rw (f, admit)
                (
                  (
                    ((validate_execution_bundle_iff e found.assignment found.task found.plan
                          s.executor_uid s.asset_uid b).0
                        f).1,
                    refl,
                    lookup-remove_self (source, id) g.pending_executions,
                  ),
                  tt,
                )
        ]

-- What was ready before later executions are looked at is ready behind them.
All-IsReady :
    (s : Settings) (source : String) (pending : Dict (String × String) Execution)
    (g : ExecutionIngress) (remotes : List RemoteExecution)
    → All (IsReady s source g) remotes
    → All (IsReady s source (assemble s source pending g).1) remotes
All-IsReady s source pending g [] h = tt
All-IsReady s source pending g (r ∷ rest) ((fits, own, gone), h) = (
  (fits, own, assemble-absent s source pending g (source, r.dispatch_id) gone),
  All-IsReady s source pending g rest h,
)

assemble-IsReady :
    (s : Settings) (source : String) (pending : Dict (String × String) Execution)
    (g : ExecutionIngress)
    → All (IsReady s source (assemble s source pending g).1) (assemble s source pending g).0
unfolding assemble
assemble-IsReady s source [] g = tt
assemble-IsReady s source (((from, id), e) ∷ rest) g = elim (Bool-cases (from == source)) [
  | inl own ↦ elim (Option-cases (find_ready source e g.records)) [
    | inl missing ↦ rw (own, missing, assemble) (assemble-IsReady s source rest g)
    | inr (found, f) ↦
        rw (own, f, assemble)
          (let (now_ready, g') = admit s source id e found g in
            All-append (IsReady s source (assemble s source rest g').1) now_ready
              (assemble s source rest g').0
              (All-IsReady s source rest g' now_ready (admit-IsReady s source id e found g))
              (assemble-IsReady s source rest g'))
  ]
  | inr other ↦ rw (other, assemble) (assemble-IsReady s source rest g)
]

abbrev pub EndsReady : Settings → String → Result (List RemoteExecution) × ExecutionIngress → Type 0
EndsReady s source (err e, g) = Unit
EndsReady s source (ok remotes, g) = All (IsReady s source g) remotes

-- What a message on `OCCID/IN` makes ready fits together, is meant for this node and comes from the
-- sender of the message; and the sender has nothing pending under its dispatch id behind that, so
-- that no execution becomes ready twice from one record.
pub ingest_occid-EndsReady :
    (s : Settings) (m : Inbound) (g : ExecutionIngress) → EndsReady s m.source (ingest_occid s m g)
unfolding ingest_occid assemble_ready
ingest_occid-EndsReady s m g = elim (Bool-cases m.is_object) [
  | inr other ↦ rw (other, ingest_occid) tt
  | inl object ↦ elim (Bool-cases (m.source == "")) [
    | inl missing ↦ rw (object, missing, ingest_occid) tt
    | inr named ↦ elim (Result-cases m.model) [
      | inl (e, f) ↦ rw (object, named, f, ingest_occid) tt
      | inr (model, f) ↦ elim (Result-cases (store_model m.source model g)) [
        | inl (e, k) ↦ rw (object, named, f, k, ingest_occid) tt
        | inr ((false, g'), k) ↦ rw (object, named, f, k, ingest_occid) tt
        | inr ((true, g'), k) ↦
            rw (object, named, f, k, ingest_occid)
              (assemble-IsReady s m.source g'.pending_executions g')
      ]
    ]
  ]
]
