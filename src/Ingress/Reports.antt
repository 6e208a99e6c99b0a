-- ===== src/Ingress/Reports.antt =====
-- Which messages of the ingress decide the course of an execution, and what leaves them alone.
use mpfc.Prelude.{
  String, ◌≡◌, refl, ap, ◌∙◌, inl, inr, Bool, true, false, Option, none, some, List, [], ◌∷◌, ◌++◌,
  arith, nat_equality, string_equality, pair_equality, Bool-cases, Option-cases, keep,
}
use mpfc.Dict.{Dict, remove}
use mpfc.Exec.{Result, ok, err, Result-cases}
use mpfc.Ingress.{
  Execution, ExecutionPhase, RemoteExecution, Model, Sent, Settings, ExecutionIngress, send,
}
use mpfc.Ingress.Bundle.{validate_execution_bundle}
use mpfc.Ingress.Store.{
  Inbound, of_execution, send_acceptance, admit, assemble, assemble_ready, ingest_occid,
  reject_busy, reject_all,
}
use mpfc.Ingress.Keeping.{Ready, find_ready, store_model}
use mpfc.Ingress.Vehicle.{pump_with_ingress}

-- A decision, a queued report or a terminal report: every phase but the running one.
abbrev pub decides_phase : ExecutionPhase → Bool
decides_phase ExecutionPhase.running = false
decides_phase _ = true

abbrev pub decides : Sent → Bool
decides (Sent.acceptance a) = a.accepted
decides (Sent.status r) = decides_phase r.phase
decides (Sent.entity node here) = false
decides (Sent.lifecycle state dispatch_id) = false

-- What has been decided so far: the acceptances that accept, and the reports that do not say RUNNING.
abbrev pub decisions : ExecutionIngress → List Sent
decisions g = keep decides g.sent

pub keep-append :
    {A : Type 0} (p : A → Bool) (xs ys : List A) → keep p (xs ++ ys) ≡ keep p xs ++ keep p ys
keep-append p [] ys = refl
keep-append p (x ∷ xs) ys = elim (Bool-cases (p x)) [
  | inl f ↦ rw (f, keep, keep-append p xs ys) refl
  | inr t ↦ rw (t, keep, keep-append p xs ys) refl
]

append-[] : {A : Type 0} (xs : List A) → xs ++ [] ≡ xs
append-[] [] = refl
append-[] (x ∷ xs) = rw (append-[] xs) refl

keep-drop : {A : Type 0} (p : A → Bool) (x : A) → p x ≡ false → keep p (x ∷ []) ≡ []
keep-drop p x h = rw (h, keep) refl

keep-take : {A : Type 0} (p : A → Bool) (x : A) → p x ≡ true → keep p (x ∷ []) ≡ x ∷ []
keep-take p x h = rw (h, keep) refl

pub decisions-send :
    (m : Sent) (g : ExecutionIngress) → decides m ≡ false → decisions (send m g) ≡ decisions g
decisions-send m g h =
    keep-append decides g.sent (m ∷ [])
    ∙ ap (λ ms. decisions g ++ ms) (keep-drop decides m h)
    ∙ append-[] (decisions g)

pub decisions-decide :
    (m : Sent) (g : ExecutionIngress)
    → decides m ≡ true
    → decisions (send m g) ≡ decisions g ++ m ∷ []
decisions-decide m g h =
    keep-append decides g.sent (m ∷ []) ∙ ap (λ ms. decisions g ++ ms) (keep-take decides m h)

decisions-refuse :
    (dest dispatch_id : String) (execution : Execution) (retryable : Bool) (reason : Option String)
    (g : ExecutionIngress)
    → decisions
        (send_acceptance dest (of_execution execution) dispatch_id false retryable reason g).1
      ≡ decisions g
unfolding send_acceptance
decisions-refuse dest dispatch_id execution retryable reason g = decisions-send _ g refl

decisions-admit :
    (s : Settings) (source dispatch_id : String) (execution : Execution) (found : Ready)
    (g : ExecutionIngress)
    → decisions (admit s source dispatch_id execution found g).1 ≡ decisions g
unfolding admit
decisions-admit s source dispatch_id execution found g =
    let popped = record g {
      pending_executions = remove (source, dispatch_id) g.pending_executions;
    } in
    elim (Result-cases (
      validate_execution_bundle (Model.execution execution) (Model.assignment found.assignment)
        (Model.task found.task) (Model.plan found.plan) s.executor_uid s.asset_uid)) [
          | inl (e, f) ↦
              rw (f, admit)
                (decisions-refuse source dispatch_id execution false (some e.text) popped)
          | inr (b, f) ↦ rw (f, admit) refl
        ]

decisions-assemble :
    (s : Settings) (source : String) (pending : Dict (String × String) Execution)
    (g : ExecutionIngress)
    → decisions (assemble s source pending g).1 ≡ decisions g
unfolding assemble
decisions-assemble s source [] g = refl
decisions-assemble s source (((from, id), e) ∷ rest) g =
    elim (Option-cases (find_ready source e g.records)) [
      | inl missing ↦ ground (arith, missing, decisions-assemble s source rest g)
      | inr (found, f) ↦ ground (
        arith,
        f,
        decisions-assemble s source rest g,
        decisions-assemble s source rest (admit s source id e found g).1,
        decisions-admit s source id e found g,
      )
    ]

decisions-store :
    (source : String) (m : Model) (g g' : ExecutionIngress) (kept : Bool)
    → store_model source m g ≡ ok (kept, g')
    → decisions g' ≡ decisions g
unfolding store_model
decisions-store source (Model.location m) g g' kept h = ground arith
decisions-store source (Model.plan m) g g' kept h = ground arith
decisions-store source (Model.task m) g g' kept h = ground arith
decisions-store source (Model.assignment m) g g' kept h = ground arith
decisions-store source (Model.execution m) g g' kept h = ground arith
decisions-store source Model.other_model g g' kept h = ground arith

pub decisions-ingest :
    (s : Settings) (m : Inbound) (g : ExecutionIngress)
    → decisions (ingest_occid s m g).1 ≡ decisions g
unfolding ingest_occid assemble_ready
decisions-ingest s m g = elim (Result-cases m.model) [
  | inl (e, f) ↦ ground (arith, f)
  | inr (model, f) ↦ elim (Result-cases (store_model m.source model g)) [
    | inl (e, h) ↦ ground (arith, f, h)
    | inr ((kept, g'), h) ↦ ground (
      arith,
      f,
      h,
      decisions-store m.source model g g' kept h,
      decisions-assemble s m.source g'.pending_executions g',
    )
  ]
]

pub decisions-reject :
    (remotes : List RemoteExecution) (g : ExecutionIngress)
    → decisions (reject_all remotes g) ≡ decisions g
unfolding reject_all reject_busy
decisions-reject [] g = refl
decisions-reject (r ∷ rest) g =
    decisions-reject rest _
    ∙ decisions-refuse r.source r.dispatch_id r.bundle.execution true
        (some "execution ingress is busy") g

pub decisions-pump :
    (s : Settings) (received : Result (Option Inbound)) (g : ExecutionIngress)
    → decisions (pump_with_ingress s received g).1 ≡ decisions g
unfolding pump_with_ingress
decisions-pump s (err e) g = refl
decisions-pump s (ok none) g = refl
decisions-pump s (ok (some m)) g = elim (Result-cases (ingest_occid s m g).0) [
  | inl (e, f) ↦ ground (arith, f, decisions-ingest s m g)
  | inr (remotes, f) ↦
      ground (arith, f, decisions-ingest s m g, decisions-reject remotes (ingest_occid s m g).1)
]
