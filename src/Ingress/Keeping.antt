-- ===== src/Ingress/Keeping.antt =====
-- The records that plugins/execution_ingress/execution_ingress.py keeps, and which of them make a
-- ready execution.
use mpfc.Prelude.{
  String, Bool, true, false, not, ◌&&◌, ◌||◌, Option, none, some, List, [], ◌∷◌, nat_equality,
  string_equality, pair_equality, ◌==◌, if◌then◌else◌,
}
use mpfc.Dict.{Dict, lookup, contains, insert}
use mpfc.Exec.{ErrorClass, Result, ok, ◌>>=◌, ◌>>◌, raise, raise_if, or_raise}
use mpfc.Ingress.{
  Uid, GlobalPosition, ManeuverIntent, TaskKind, Task, Assignment, Plan, Execution, Model, Records,
  ExecutionIngress, among,
}

abbrev last : List String → Option String
last [] = none
last (x ∷ []) = some x
last (x ∷ y ∷ xs) = last (y ∷ xs)

-- `_dispatch_id`
unfoldable pub dispatch_id_of : Execution → Result String
dispatch_id_of execution = do
  dispatch_id ←
      or_raise (last execution.external_job_refs) ErrorClass.value_error
        "Execution has no persisted dispatch identity"
  raise_if (dispatch_id == "") ErrorClass.value_error "Execution dispatch identity is empty"
  ok dispatch_id

-- `_store_model`: whether the model is one of those that are kept.
unfoldable pub store_model : String → Model → ExecutionIngress → Result (Bool × ExecutionIngress)
store_model source (Model.location m) g = ok (
  true,
  record g {
    records = record g.records { locations = insert (source, m.uid) m g.records.locations };
  },
)
store_model source (Model.plan m) g = ok (
  true,
  record g { records = record g.records { plans = insert (source, m.uid) m g.records.plans } },
)
store_model source (Model.task m) g = ok (
  true,
  record g { records = record g.records { tasks = insert (source, m.uid) m g.records.tasks } },
)
store_model source (Model.assignment m) g = ok (
  true,
  record g {
    records = record g.records { assignments = insert (source, m.uid) m g.records.assignments };
  },
)
store_model source (Model.execution m) g = do
  dispatch_id ← dispatch_id_of m
  ok (true, record g { pending_executions = insert (source, dispatch_id) m g.pending_executions })
store_model source Model.other_model g = ok (false, g)

-- `_move_dependency_missing`
unfoldable move_dependency_missing : String → Task → Records → Bool
move_dependency_missing source task r = elim task.kind [
  | TaskKind.maneuver intent uids ↦ elim intent [
    | ManeuverIntent.move ↦ elim uids [
      | [] ↦ false
      | uid ∷ more ↦ elim more [ [] ↦ not (contains (source, uid) r.locations) | _ ∷ _ ↦ false ]
    ]
    | ManeuverIntent.other_intent ↦ false
  ]
  | TaskKind.other_kind ↦ false
]

-- The one location that a move names.
abbrev only : List Uid → Result Uid
only (uid ∷ []) = ok uid
only _ = raise ErrorClass.value_error "TaskManeuver/MOVE requires exactly one location_uid"

abbrev move_uids : TaskKind → Result (List Uid)
move_uids (TaskKind.maneuver ManeuverIntent.move uids) = ok uids
move_uids (TaskKind.maneuver ManeuverIntent.other_intent uids) =
    raise ErrorClass.type_error "no local handler for this TaskManeuver; current handler is MOVE"
move_uids TaskKind.other_kind =
    raise ErrorClass.type_error "no local handler; current handler is TaskManeuver/MOVE"

-- `_resolve_move_destination`
unfoldable pub resolve_move_destination : String → Task → Records → Result GlobalPosition
resolve_move_destination source task r = do
  uids ← move_uids task.kind
  uid ← only uids
  location ←
      or_raise (lookup (source, uid) r.locations) ErrorClass.value_error
        "TaskManeuver/MOVE location_uid is unresolved"
  or_raise location.position ErrorClass.value_error
      "Location record does not carry a GlobalPosition"

abbrev covers : Uid → Option (List Uid) → Bool
covers uid none = false
covers uid (some uids) = among uid uids

-- `_plan_for`: the first plan of the source that names the task or the assignment.
unfoldable plan_for : String → Task → Assignment → Dict (String × Uid) Plan → Option Plan
plan_for source task assignment [] = none
plan_for source task assignment ((k, plan) ∷ rest) =
    let later = plan_for source task assignment rest in
    if k.0 == source
      && (covers task.uid plan.task_uids || covers assignment.uid plan.assignment_uids)
    then some plan
    else later

-- The records that a pending execution needs, where all are there.
pub record Ready : Type 0 where
  pub assignment : Assignment
  pub task : Task
  pub plan : Plan

unfoldable pub find_ready : String → Execution → Records → Option Ready
unfolding plan_for move_dependency_missing
find_ready source execution r = elim (lookup (source, execution.assignment_uid) r.assignments) [
  | none ↦ none
  | some assignment ↦ elim assignment.task_uid [
    | none ↦ none
    | some task_uid ↦ elim (lookup (source, task_uid) r.tasks) [
      | none ↦ none
      | some task ↦ elim (plan_for source task assignment r.plans) [
        | none ↦ none
        | some plan ↦
            if move_dependency_missing source task r
            then none
            else some (record { assignment = assignment; task = task; plan = plan })
      ]
    ]
  ]
]
