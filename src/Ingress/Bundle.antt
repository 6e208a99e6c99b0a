-- ===== src/Ingress/Bundle.antt =====
-- `validate_execution_bundle`: which executions this node takes.
use mpfc.Prelude.{
  Bool, true, false, not, Option, none, some, List, nat_equality, string_equality, pair_equality,
  ◌==◌,
}
use mpfc.Exec.{ErrorClass, Result, ok, ◌>>=◌, ◌>>◌, raise, raise_if, or_raise}
use mpfc.Ingress.{
  Uid, Task, TaskStatus, Assignment, AssignmentStatus, Plan, PlanApprovalState, Execution,
  ExecutionPhase, Model, ExecutionBundle, among,
}

-- `occid.is_a(…)`, with the model that it finds
abbrev pub as_execution : Model → Result Execution
as_execution (Model.execution e) = ok e
as_execution _ = raise ErrorClass.type_error "expected Execution"

abbrev pub as_assignment : Model → Result Assignment
as_assignment (Model.assignment a) = ok a
as_assignment _ = raise ErrorClass.type_error "expected Assignment"

abbrev pub as_task : Model → Result Task
as_task (Model.task t) = ok t
as_task _ = raise ErrorClass.type_error "expected Task"

abbrev pub as_plan : Model → Result Plan
as_plan (Model.plan p) = ok p
as_plan _ = raise ErrorClass.type_error "expected Plan"

abbrev pub is_approved : PlanApprovalState → Bool
is_approved PlanApprovalState.approved = true
is_approved _ = false

abbrev pub is_executable : AssignmentStatus → Bool
is_executable AssignmentStatus.other_status = false
is_executable _ = true

abbrev pub is_terminal : TaskStatus → Bool
is_terminal TaskStatus.other_status = false
is_terminal _ = true

abbrev pub is_dispatchable : ExecutionPhase → Bool
is_dispatchable ExecutionPhase.created = true
is_dispatchable ExecutionPhase.queued = true
is_dispatchable _ = false

-- `uids is not None and uid not in uids`
abbrev pub leaves_out : Uid → Option (List Uid) → Bool
leaves_out uid none = false
leaves_out uid (some uids) = not (among uid uids)

-- The tests behind the class tests, in the order of the code.
unfoldable pub check_bundle :
    Execution → Assignment → Uid → Task → Plan → Uid → Uid → Result (Unit {0})
check_bundle execution assignment task_uid task plan executor_uid asset_uid = do
  raise_if (not (execution.assignment_uid == assignment.uid)) ErrorClass.value_error
      "Execution.assignment_uid does not match supplied Assignment"
  raise_if (not (task_uid == task.uid)) ErrorClass.value_error
      "Assignment.task_uid does not match supplied Task"
  raise_if (not (execution.executor_uid == executor_uid)) ErrorClass.value_error
      "Execution.executor_uid does not address this executor"
  raise_if (not (assignment.assignee_uid == asset_uid)) ErrorClass.value_error
      "Assignment.assignee_uid does not address this asset"
  raise_if (not (is_approved plan.approval_state)) ErrorClass.value_error
      "supplied Plan is not approved"
  raise_if (leaves_out task.uid plan.task_uids) ErrorClass.value_error
      "supplied Plan does not contain the assigned Task"
  raise_if (leaves_out assignment.uid plan.assignment_uids) ErrorClass.value_error
      "supplied Plan does not contain the Assignment"
  raise_if (not (is_executable assignment.status)) ErrorClass.value_error
      "supplied Assignment is not executable"
  raise_if (is_terminal task.status) ErrorClass.value_error "supplied Task is terminal"
  raise_if (not (is_dispatchable execution.phase)) ErrorClass.value_error
      "supplied Execution is not dispatchable"

unfoldable pub validate_execution_bundle :
    Model → Model → Model → Model → Uid → Uid → Result ExecutionBundle
validate_execution_bundle execution_model assignment_model task_model plan_model executor_uid
      asset_uid =
    do
      execution ← as_execution execution_model
      assignment ← as_assignment assignment_model
      task ← as_task task_model
      plan ← as_plan plan_model
      task_uid ←
          or_raise assignment.task_uid ErrorClass.value_error "Assignment does not reference a Task"
      check_bundle execution assignment task_uid task plan executor_uid asset_uid
      ok (record { execution = execution; assignment = assignment; task = task; plan = plan })
