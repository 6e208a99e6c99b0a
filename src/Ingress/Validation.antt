-- ===== src/Ingress/Validation.antt =====
-- `validate_execution_bundle` takes exactly the bundles that fit together and are meant for this node.
use mathlib.Core.Path.{subst}
use mpfc.Prelude.{
  ◌≡◌, refl, sym, ap, ◌∙◌, ◌↔◌, inl, inr, true, false, Option, none, some, List, arith, eq_iff,
  nat_equality, string_equality, pair_equality, Option-cases,
}
use mpfc.Exec.{ok, ok-injective, Result-cases}
use mpfc.Ingress.{Uid, Task, Assignment, Plan, Execution, Model, ExecutionBundle, among}
use mpfc.Ingress.Bundle.{
  is_approved, is_executable, is_terminal, is_dispatchable, leaves_out, check_bundle,
  validate_execution_bundle,
}

-- The list of a plan, where the plan has one, names the record.
abbrev pub Names : Option (List Uid) → Uid → Type 0
Names none uid = Unit
Names (some uids) uid = among uid uids ≡ true

-- The records of a bundle name one another, address this executor and this asset, and are in states
-- in which work may begin.
pub record IsExecutable (b : ExecutionBundle) (executor_uid asset_uid : Uid) : Type 0 where
  pub assignment_matches : b.execution.assignment_uid ≡ b.assignment.uid
  pub task_matches : b.assignment.task_uid ≡ some b.task.uid
  pub for_executor : b.execution.executor_uid ≡ executor_uid
  pub for_asset : b.assignment.assignee_uid ≡ asset_uid
  pub approved : is_approved b.plan.approval_state ≡ true
  pub names_task : Names b.plan.task_uids b.task.uid
  pub names_assignment : Names b.plan.assignment_uids b.assignment.uid
  pub executable : is_executable b.assignment.status ≡ true
  pub open_task : is_terminal b.task.status ≡ false
  pub dispatchable : is_dispatchable b.execution.phase ≡ true

Names-leaves_out : (o : Option (List Uid)) (uid : Uid) → (leaves_out uid o ≡ false) ↔ Names o uid
Names-leaves_out none uid = (λ h. tt, λ h. refl)
Names-leaves_out (some uids) uid = ground arith

check_bundle_iff :
    (e : Execution) (a : Assignment) (task_uid : Uid) (t : Task) (p : Plan)
    (executor_uid asset_uid : Uid)
    → (check_bundle e a task_uid t p executor_uid asset_uid ≡ ok tt) ↔ (
        (e.assignment_uid ≡ a.uid)
        × (task_uid ≡ t.uid)
        × (e.executor_uid ≡ executor_uid)
        × (a.assignee_uid ≡ asset_uid)
        × (is_approved p.approval_state ≡ true)
        × (leaves_out t.uid p.task_uids ≡ false)
        × (leaves_out a.uid p.assignment_uids ≡ false)
        × (is_executable a.status ≡ true)
        × (is_terminal t.status ≡ false)
        × (is_dispatchable e.phase ≡ true))
unfolding check_bundle
check_bundle_iff e a task_uid t p executor_uid asset_uid = ground (
  arith,
  eq_iff e.assignment_uid a.uid,
  eq_iff task_uid t.uid,
  eq_iff e.executor_uid executor_uid,
  eq_iff a.assignee_uid asset_uid,
)

validate-ok :
    (e : Execution) (a : Assignment) (t : Task) (p : Plan) (task_uid executor_uid asset_uid : Uid)
    → a.task_uid ≡ some task_uid
    → check_bundle e a task_uid t p executor_uid asset_uid ≡ ok tt
    → validate_execution_bundle
        (Model.execution e)
        (Model.assignment a)
        (Model.task t)
        (Model.plan p)
        executor_uid
        asset_uid
      ≡ ok (record { execution = e; assignment = a; task = t; plan = p })
unfolding validate_execution_bundle
validate-ok e a t p u executor_uid asset_uid found checked = ground arith

from_models :
    (e : Execution) (a : Assignment) (t : Task) (p : Plan) (executor_uid asset_uid : Uid)
    (b : ExecutionBundle)
    → validate_execution_bundle
        (Model.execution e)
        (Model.assignment a)
        (Model.task t)
        (Model.plan p)
        executor_uid
        asset_uid
      ≡ ok b
    → (task_uid : Uid) × (a.task_uid ≡ some task_uid)
      × (check_bundle e a task_uid t p executor_uid asset_uid ≡ ok tt)
      × (record { execution = e; assignment = a; task = t; plan = p } ≡ b)
unfolding validate_execution_bundle
from_models e a t p executor_uid asset_uid b h = elim (Option-cases a.task_uid) [
  | inl absent ↦ absurd (ground (arith, h, absent))
  | inr (u, found) ↦ elim (Result-cases (check_bundle e a u t p executor_uid asset_uid)) [
    | inl (x, f) ↦ absurd (ground (arith, h, found, f))
    | inr (_, f) ↦
        (u, found, f, ok-injective (sym (validate-ok e a t p u executor_uid asset_uid found f) ∙ h))
  ]
]

IsExecutable-of_check :
    (b : ExecutionBundle) (task_uid executor_uid asset_uid : Uid)
    → b.assignment.task_uid ≡ some task_uid
    → check_bundle b.execution b.assignment task_uid b.task b.plan executor_uid asset_uid ≡ ok tt
    → IsExecutable b executor_uid asset_uid
IsExecutable-of_check b task_uid executor_uid asset_uid found h =
    let c =
      (check_bundle_iff b.execution b.assignment task_uid b.task b.plan executor_uid asset_uid).0
        h in
    record {
      assignment_matches = c.0;
      task_matches = rw (← c.1) found;
      for_executor = c.2;
      for_asset = c.3;
      approved = c.4;
      names_task = (Names-leaves_out b.plan.task_uids b.task.uid).0 c.5;
      names_assignment = (Names-leaves_out b.plan.assignment_uids b.assignment.uid).0 c.6;
      executable = c.7;
      open_task = c.8;
      dispatchable = c.9;
    }

check_of_IsExecutable :
    (b : ExecutionBundle) (executor_uid asset_uid : Uid)
    → IsExecutable b executor_uid asset_uid
    → check_bundle b.execution b.assignment b.task.uid b.task b.plan executor_uid asset_uid ≡ ok tt
check_of_IsExecutable b executor_uid asset_uid x =
    (check_bundle_iff b.execution b.assignment b.task.uid b.task b.plan executor_uid asset_uid).1 (
      x.assignment_matches,
      refl,
      x.for_executor,
      x.for_asset,
      x.approved,
      (Names-leaves_out b.plan.task_uids b.task.uid).1 x.names_task,
      (Names-leaves_out b.plan.assignment_uids b.assignment.uid).1 x.names_assignment,
      x.executable,
      x.open_task,
      x.dispatchable,
    )

-- Whatever execution, assignment, task and plan are tried: a bundle comes out exactly if it is made
-- of these four, they name one another, the execution is for this executor and the assignment for
-- this asset, the plan is approved and names task and assignment where it has such lists, and the
-- assignment, the task and the execution are in states in which work may begin.
pub validate_execution_bundle_iff :
    (e : Execution) (a : Assignment) (t : Task) (p : Plan) (executor_uid asset_uid : Uid)
    (b : ExecutionBundle)
    → (validate_execution_bundle
          (Model.execution e)
          (Model.assignment a)
          (Model.task t)
          (Model.plan p)
          executor_uid
          asset_uid
        ≡ ok b)
      ↔ ((record { execution = e; assignment = a; task = t; plan = p } ≡ b)
          × IsExecutable b executor_uid asset_uid)
unfolding validate_execution_bundle
validate_execution_bundle_iff e a t p executor_uid asset_uid b = (
  λ h.
      let (u, found, checked, same) = from_models e a t p executor_uid asset_uid b h in
      (
        same,
        subst (λ c. IsExecutable c executor_uid asset_uid) same
            (IsExecutable-of_check (record { execution = e; assignment = a; task = t; plan = p }) u
              executor_uid asset_uid found checked),
      ),
  λ h.
      let c : ExecutionBundle = record { execution = e; assignment = a; task = t; plan = p } in
      let x : IsExecutable c executor_uid asset_uid =
        subst (λ d. IsExecutable d executor_uid asset_uid) (sym h.0) h.1 in
      validate-ok e a t p t.uid executor_uid asset_uid x.task_matches
        (check_of_IsExecutable c executor_uid asset_uid x)
      ∙ ap ok h.0,
)
