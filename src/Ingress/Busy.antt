-- ===== src/Ingress/Busy.antt =====
-- `_pump_with_ingress`: what a node that works does with the executions that become ready.
use mathlib.Core.Path.{subst}
use mathlib.Core.List.{append_assoc, append-nil}
use mpfc.Prelude.{
  Bool, String, ◌≡◌, refl, sym, ap, ◌∙◌, ◌⊎◌, inl, inr, true, false, some, List, [], ◌∷◌, ◌++◌, map,
  nat_equality, string_equality, pair_equality, ◌==◌, Bool-cases, Option-cases, All, All-append,
}
use mpfc.Dict.{Dict}
use mpfc.Exec.{Error, ok, err, Result-cases, >>=-eq-ok, ok-injective}
use mpfc.Ingress.{
  Execution, RemoteExecution, Model, Sent, Settings, ExecutionIngress, send, Records,
}
use mpfc.Ingress.Bundle.{validate_execution_bundle}
use mpfc.Ingress.Store.{
  Inbound, send_acceptance, admit, assemble, assemble_ready, ingest_occid, reject_busy, reject_all,
}
use mpfc.Ingress.Keeping.{Ready, find_ready, store_model, dispatch_id_of}
use mpfc.Ingress.Vehicle.{pump_with_ingress}

-- What a message from another node must leave alone while this one works: the execution that it works
-- on, what it has told of itself, and the commands to the vehicle.
pub record Keeps (g g' : ExecutionIngress) : Type 0 where
  pub active : g'.active_execution_id ≡ g.active_execution_id
  pub dispatch : g'.active_dispatch_id ≡ g.active_dispatch_id
  pub published : g'.last_state_publish ≡ g.last_state_publish
  pub lifecycle : g'.lifecycle_state ≡ g.lifecycle_state
  pub commands : g'.commands ≡ g.commands

-- An answer to `dest` that a dispatch is not taken, and is not to be tried again.
abbrev pub IsRejection : String → Sent → Type 0
IsRejection dest (Sent.acceptance a) =
    (a.dest ≡ dest) × (a.accepted ≡ false) × (a.retryable ≡ false)
IsRejection dest (Sent.status r) = ⊥
IsRejection dest (Sent.entity to state) = ⊥
IsRejection dest (Sent.lifecycle state reason) = ⊥

-- The records, the pending executions and the answers are not what must stay.
unchanged :
    (records : Records) (pending : Dict (String × String) Execution) (sent : List Sent)
    (g : ExecutionIngress)
    → Keeps g (record g { records = records; pending_executions = pending; sent = sent })
unchanged records pending sent g = record {
  active = refl;
  dispatch = refl;
  published = refl;
  lifecycle = refl;
  commands = refl;
}

Keeps-refl : (g : ExecutionIngress) → Keeps g g
Keeps-refl g = record {
  active = refl;
  dispatch = refl;
  published = refl;
  lifecycle = refl;
  commands = refl;
}

Keeps-trans : (g h k : ExecutionIngress) → Keeps g h → Keeps h k → Keeps g k
Keeps-trans g h k a b = record {
  active = b.active ∙ a.active;
  dispatch = b.dispatch ∙ a.dispatch;
  published = b.published ∙ a.published;
  lifecycle = b.lifecycle ∙ a.lifecycle;
  commands = b.commands ∙ a.commands;
}

-- What keeps the node at work and sends rejections only.
abbrev Rejects : String → ExecutionIngress → ExecutionIngress → Type 0
Rejects source g g' =
    (answers : List Sent) × Keeps g g'
    × All (IsRejection source) answers
    × (g'.sent ≡ g.sent ++ answers)

Rejects-trans :
    (source : String) (g h k : ExecutionIngress)
    → Rejects source g h
    → Rejects source h k
    → Rejects source g k
Rejects-trans source g h k (a, keep, only, e) (b, keep', only', e') = (
  a ++ b,
  Keeps-trans g h k keep keep',
  All-append (IsRejection source) a b only only',
  e' ∙ ap (λ l. l ++ b) e ∙ append_assoc g.sent a b,
)

abbrev Stores : ExecutionIngress → ExecutionIngress → Type 0
Stores g g' = Keeps g g' × (g'.sent ≡ g.sent)

store_model-Keeps :
    (source : String) (m : Model) (g g' : ExecutionIngress) (kept : Bool)
    → store_model source m g ≡ ok (kept, g')
    → Stores g g'
unfolding store_model
store_model-Keeps source (Model.location m) g g' kept h =
    subst (Stores g) (ap (λ x. x.1) (ok-injective h)) (unchanged _ _ _ g, refl)
store_model-Keeps source (Model.plan m) g g' kept h =
    subst (Stores g) (ap (λ x. x.1) (ok-injective h)) (unchanged _ _ _ g, refl)
store_model-Keeps source (Model.task m) g g' kept h =
    subst (Stores g) (ap (λ x. x.1) (ok-injective h)) (unchanged _ _ _ g, refl)
store_model-Keeps source (Model.assignment m) g g' kept h =
    subst (Stores g) (ap (λ x. x.1) (ok-injective h)) (unchanged _ _ _ g, refl)
store_model-Keeps source (Model.execution m) g g' kept h =
    let (id, named, same) = >>=-eq-ok (dispatch_id_of m) _ h in
    subst (Stores g) (ap (λ x. x.1) (ok-injective same)) (unchanged _ _ _ g, refl)
store_model-Keeps source Model.other_model g g' kept h =
    subst (Stores g) (ap (λ x. x.1) (ok-injective h)) (Keeps-refl g, refl)

store_model-Rejects :
    (source : String) (m : Model) (g g' : ExecutionIngress) (kept : Bool)
    → store_model source m g ≡ ok (kept, g')
    → Rejects source g g'
store_model-Rejects source m g g' kept h =
    let (keep, same) = store_model-Keeps source m g g' kept h in
    ([], keep, tt, same ∙ sym (append-nil g.sent))

admit-Rejects :
    (s : Settings) (source id : String) (e : Execution) (found : Ready) (g : ExecutionIngress)
    → Rejects source g (admit s source id e found g).1
unfolding admit send_acceptance
admit-Rejects s source id e found g =
    elim (Result-cases (
      validate_execution_bundle (Model.execution e) (Model.assignment found.assignment)
        (Model.task found.task) (Model.plan found.plan) s.executor_uid s.asset_uid)) [
          | inl (x, f) ↦ rw (f, admit) (_, unchanged _ _ _ g, ((refl, refl, refl), tt), refl)
          | inr (b, f) ↦ rw (f, admit) ([], unchanged _ _ _ g, tt, sym (append-nil g.sent))
        ]

assemble-Rejects :
    (s : Settings) (source : String) (pending : Dict (String × String) Execution)
    (g : ExecutionIngress)
    → Rejects source g (assemble s source pending g).1
unfolding assemble
assemble-Rejects s source [] g = ([], Keeps-refl g, tt, sym (append-nil g.sent))
assemble-Rejects s source (((from, id), e) ∷ rest) g = elim (Bool-cases (from == source)) [
  | inl own ↦ elim (Option-cases (find_ready source e g.records)) [
    | inl missing ↦ rw (own, missing, assemble) (assemble-Rejects s source rest g)
    | inr (found, f) ↦
        let g' = (admit s source id e found g).1 in
        rw (own, f, assemble)
          (Rejects-trans source g g' (assemble s source rest g').1
            (admit-Rejects s source id e found g) (assemble-Rejects s source rest g'))
  ]
  | inr other ↦ rw (other, assemble) (assemble-Rejects s source rest g)
]

-- A message that is not taken changes nothing; one that is taken rejects at most.
ingest_occid-Rejects :
    (s : Settings) (m : Inbound) (g : ExecutionIngress)
    → ((e : Error) × (ingest_occid s m g ≡ (err e, g)))
      ⊎ ((remotes : List RemoteExecution) × ((ingest_occid s m g).0 ≡ ok remotes)
          × Rejects m.source g (ingest_occid s m g).1)
unfolding ingest_occid assemble_ready
ingest_occid-Rejects s m g = elim (Bool-cases m.is_object) [
  | inr other ↦ rw (other, ingest_occid) (inl (_, refl))
  | inl object ↦ elim (Bool-cases (m.source == "")) [
    | inl missing ↦ rw (object, missing, ingest_occid) (inl (_, refl))
    | inr named ↦ elim (Result-cases m.model) [
      | inl (e, f) ↦ rw (object, named, f, ingest_occid) (inl (e, refl))
      | inr (model, f) ↦ elim (Result-cases (store_model m.source model g)) [
        | inl (e, k) ↦ rw (object, named, f, k, ingest_occid) (inl (e, refl))
        | inr ((false, g'), k) ↦
            rw (object, named, f, k, ingest_occid)
              (inr ([], refl, store_model-Rejects m.source model g g' false k))
        | inr ((true, g'), k) ↦
            rw (object, named, f, k, ingest_occid)
              (inr (
                _,
                refl,
                Rejects-trans m.source g g' (assemble s m.source g'.pending_executions g').1
                    (store_model-Rejects m.source model g g' true k)
                    (assemble-Rejects s m.source g'.pending_executions g'),
              ))
      ]
    ]
  ]
]

abbrev pub busy_refusal : RemoteExecution → Sent
busy_refusal r = Sent.acceptance (record {
  dest = r.source;
  execution_uid = r.bundle.execution.uid;
  dispatch_ref = r.dispatch_id;
  accepted = false;
  retryable = true;
  reason = some "execution ingress is busy";
})

reject_all-sent :
    (remotes : List RemoteExecution) (g : ExecutionIngress)
    → reject_all remotes g ≡ record g { sent = g.sent ++ map busy_refusal remotes }
unfolding reject_all reject_busy send_acceptance
reject_all-sent [] g = ap (λ l. record g { sent = l }) (sym (append-nil g.sent))
reject_all-sent (r ∷ rest) g =
    reject_all-sent rest (send (busy_refusal r) g)
    ∙ ap (λ l. record g { sent = l })
        (append_assoc g.sent (busy_refusal r ∷ []) (map busy_refusal rest))

-- A message that comes while the node works either raises, and changes nothing; or every execution that
-- it makes ready is refused once, as one to be tried again, behind final refusals, to its sender, of
-- those that do not fit. Either way no command goes to the vehicle, and the active execution and
-- dispatch, the lifecycle state and the last state publish stay.
pub pump_with_ingress_refuses :
    (s : Settings) (m : Inbound) (g : ExecutionIngress)
    → let o = pump_with_ingress s (ok (some m)) g in
      ((e : Error) × ((ingest_occid s m g).0 ≡ err e) × (o ≡ (err e, g)))
      ⊎ ((remotes : List RemoteExecution) × (answers : List Sent) × ((ingest_occid s m g).0
            ≡ ok remotes)
          × (o.0 ≡ ok tt)
          × Keeps g o.1
          × All (IsRejection m.source) answers
          × (o.1.sent ≡ (g.sent ++ answers) ++ map busy_refusal remotes))
unfolding pump_with_ingress
pump_with_ingress_refuses s m g = elim (ingest_occid-Rejects s m g) [
  | inl (e, f) ↦ rw (f, pump_with_ingress) (inl (e, refl, ap (λ x. (err e, x.1)) f))
  | inr (remotes, f, rejects) ↦
      let (answers, keep, only, sent) = rejects in
      rw (f, pump_with_ingress)
        (inr (
          remotes,
          answers,
          refl,
          refl,
          rw (reject_all-sent remotes (ingest_occid s m g).1) (
              Keeps-trans g (ingest_occid s m g).1 _ keep (unchanged _ _ _ (ingest_occid s m g).1)),
          only,
          ap (λ h. h.sent) (reject_all-sent remotes (ingest_occid s m g).1)
              ∙ ap (λ l. l ++ map busy_refusal remotes) sent,
        ))
]
