-- ===== src/Ingress/Store.antt =====
-- The assembly of executions from records, and the refusal of those that come while another runs, in
-- plugins/execution_ingress/execution_ingress.py.
use mpfc.Prelude.{
  String, Bool, true, false, not, Option, none, some, List, [], ◌∷◌, ◌++◌, nat_equality,
  string_equality, pair_equality, ◌==◌,
}
use mpfc.Dict.{Dict, remove}
use mpfc.Exec.{ErrorClass, Result, ok, err, ◌>>=◌, ◌>>◌, raise, raise_if}
use mpfc.Ingress.{
  Uid, Execution, Model, ExecutionBundle, RemoteExecution, Sent, Settings, ExecutionIngress, send,
}
use mpfc.Ingress.Bundle.{validate_execution_bundle}
use mpfc.Ingress.Keeping.{store_model, Ready, find_ready}

-- What `_send_acceptance` is given for its execution: the code hands it a bundle in one place.
pub data Subject : Type 0 where
  of_execution : Execution → Subject
  of_bundle : ExecutionBundle → Subject

-- `execution.uid`, which a bundle does not have.
abbrev subject_uid : Subject → Result Uid
subject_uid (of_execution e) = ok e.uid
subject_uid (of_bundle b) =
    raise ErrorClass.attribute_error "'ExecutionBundle' object has no attribute 'uid'"

-- `_send_acceptance`
unfoldable pub send_acceptance :
    String
    → Subject
    → String
    → Bool
    → Bool
    → Option String
    → ExecutionIngress
    → Result (Unit {0}) × ExecutionIngress
send_acceptance dest subject dispatch_id accepted retryable reason g = elim (subject_uid subject) [
  | err e ↦ (err e, g)
  | ok uid ↦ (
    ok tt,
    send
        (Sent.acceptance (record {
          dest = dest;
          execution_uid = uid;
          dispatch_ref = dispatch_id;
          accepted = accepted;
          retryable = retryable;
          reason = reason;
        }))
        g,
  )
]

-- The part of the loop of `_assemble_ready` behind the records: the pending execution is popped, and
-- is ready or is refused.
unfoldable pub admit :
    Settings
    → String
    → String
    → Execution
    → Ready
    → ExecutionIngress
    → List RemoteExecution × ExecutionIngress
unfolding send_acceptance
admit s source dispatch_id execution found g =
    let popped = record g {
      pending_executions = remove (source, dispatch_id) g.pending_executions;
    } in
    elim (validate_execution_bundle (Model.execution execution) (Model.assignment found.assignment)
      (Model.task found.task) (Model.plan found.plan) s.executor_uid s.asset_uid) [
        | ok bundle ↦
            (record { source = source; dispatch_id = dispatch_id; bundle = bundle } ∷ [], popped)
        | err e ↦ (
          [],
          (send_acceptance source (of_execution execution) dispatch_id false false (some e.text)
              popped).1,
        )
      ]

-- The loop of `_assemble_ready`, over the executions that were pending when it began.
unfoldable pub assemble :
    Settings
    → String
    → Dict (String × String) Execution
    → ExecutionIngress
    → List RemoteExecution × ExecutionIngress
assemble s source [] g = ([], g)
assemble s source (((pending_source, dispatch_id), execution) ∷ rest) g =
    let skipped = assemble s source rest g in
    elim (pending_source == source) [
      | false ↦ skipped
      | true ↦ elim (find_ready source execution g.records) [
        | none ↦ skipped
        | some found ↦
            let (now_ready, g') = admit s source dispatch_id execution found g in
            let (later, g'') = assemble s source rest g' in (now_ready ++ later, g'')
      ]
    ]

-- `_assemble_ready`
unfoldable pub assemble_ready :
    Settings → String → ExecutionIngress → List RemoteExecution × ExecutionIngress
unfolding assemble
assemble_ready s source g = assemble s source g.pending_executions g

-- An envelope on `OCCID/IN`: the source of its data, and what `unpack_occid` makes of the model.
pub record Inbound : Type 0 where
  pub is_object : Bool
  pub source : String
  pub model : Result Model

-- `_ingest_occid`
unfoldable pub ingest_occid :
    Settings → Inbound → ExecutionIngress → Result (List RemoteExecution) × ExecutionIngress
unfolding assemble_ready
ingest_occid s m g =
    elim (do
      raise_if (not m.is_object) ErrorClass.value_error "OCCID/IN data must be an object"
      raise_if (m.source == "") ErrorClass.value_error "OCCID/IN is missing source node id"
      model ← m.model
      store_model m.source model g) [
        | err e ↦ (err e, g)
        | ok (false, g') ↦ (ok [], g')
        | ok (true, g') ↦ let (remotes, g'') = assemble_ready s m.source g' in (ok remotes, g'')
      ]

-- `_reject_busy`
unfoldable pub reject_busy : RemoteExecution → ExecutionIngress → ExecutionIngress
unfolding send_acceptance
reject_busy remote g =
    (send_acceptance remote.source (of_execution remote.bundle.execution) remote.dispatch_id false
      true (some "execution ingress is busy") g).1

unfoldable pub reject_all : List RemoteExecution → ExecutionIngress → ExecutionIngress
unfolding reject_busy
reject_all [] g = g
reject_all (remote ∷ rest) g = reject_all rest (reject_busy remote g)
