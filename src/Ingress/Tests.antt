-- ===== src/Ingress/Tests.antt =====
-- Runs of execution ingress on a concrete node, source and script.
use mpfc.Prelude.{
  ℕ, zero, suc, ◌≡◌, refl, ◌≢◌, ◌↔◌, ◌⊎◌, ◌++◌, map, All, inl, true, Option, none, some, List, [],
  ◌∷◌, arith, nat_equality, string_equality, pair_equality, length,
}
use mpfc.Exec.{Error, error, ErrorClass, Result, ok, err}
use mpfc.Prelude.Int.{pos}
use mpfc.Ingress.{
  GlobalPosition, AltitudeState, LocationState, Location, ManeuverIntent, TaskKind, TaskStatus,
  Task, AssignmentStatus, Assignment, PlanApprovalState, Plan, ExecutionPhase, Execution, Model,
  ExecutionBundle, RemoteExecution, Sent, Settings, Records, ExecutionIngress,
}
use mpfc.Ingress.Bundle.{validate_execution_bundle}
use mpfc.Ingress.Store.{Inbound, admit, ingest_occid}
use mpfc.Ingress.Keeping.{dispatch_id_of, store_model, find_ready, resolve_move_destination}
use mpfc.Ingress.Vehicle.{Turn, World, Flight, pump_with_ingress}
use mpfc.Ingress.Execute.{execute_remote}
use mpfc.Ingress.Track.{Metric, track}
use mpfc.Ingress.Validation.{IsExecutable, validate_execution_bundle_iff}
use mpfc.Ingress.Assembly.{EndsReady, ingest_occid-EndsReady}
use mpfc.Ingress.Busy.{Keeps, IsRejection, busy_refusal, pump_with_ingress_refuses}
use mpfc.Ingress.Arrival.{track_ends}
use mpfc.Ingress.Within.{Rises}
use mpfc.Ingress.Ending.{execute_remote_ends}
use mpfc.Ingress.Outcome.{Reported, execute_remote-Reported, execute_remote_unanswered}

abbrev goal : GlobalPosition
goal = record { lat = pos 1; lon = pos 2; alt = pos 20000; alt_frame = "RELATIVE" }

abbrev task : Task
task = record {
  uid = "task-1";
  kind = TaskKind.maneuver ManeuverIntent.move ("loc-1" ∷ []);
  status = TaskStatus.other_status;
  instruction = "go";
}

abbrev assignment : Assignment
assignment = record {
  uid = "assignment-1";
  task_uid = some "task-1";
  assignee_uid = "uav-1";
  status = AssignmentStatus.assigned;
}

abbrev plan : Plan
plan = record {
  uid = "plan-1";
  approval_state = PlanApprovalState.approved;
  task_uids = some ("task-1" ∷ []);
  assignment_uids = none;
}

abbrev execution : Execution
execution = record {
  uid = "execution-1";
  assignment_uid = "assignment-1";
  executor_uid = "node-1";
  phase = ExecutionPhase.created;
  external_job_refs = "job-1" ∷ [];
}

abbrev bundle : ExecutionBundle
bundle = record { execution = execution; assignment = assignment; task = task; plan = plan }

abbrev remote : RemoteExecution
remote = record { source = "c2"; dispatch_id = "job-1"; bundle = bundle }

abbrev settings : Settings
settings = record {
  executor_uid = "node-1";
  asset_uid = "uav-1";
  response_timeout = 5;
  state_timeout = 10;
  execution_timeout = 100;
  progress_interval = 5;
  arrival_radius = 3000;
  altitude_tolerance = 2000;
  auto_takeoff_for_move = true;
  takeoff_altitude = pos 10000;
  takeoff_fraction = 900;
  post_takeoff_wait = 0;
  state_publish_interval = 5;
  control_node = "c2";
}

abbrev known : Location
known = record { uid = "loc-1"; position = some goal }

-- Everything but the execution has arrived.
abbrev waiting : ExecutionIngress
waiting = record {
  records = record {
    locations = (("c2", "loc-1"), known) ∷ [];
    plans = (("c2", "plan-1"), plan) ∷ [];
    tasks = (("c2", "task-1"), task) ∷ [];
    assignments = (("c2", "assignment-1"), assignment) ∷ [];
  };
  pending_executions = [];
  active_execution_id = none;
  active_dispatch_id = none;
  last_state_publish = 0;
  lifecycle_state = "IDLE";
  sent = [];
  commands = [];
}

abbrev here : LocationState
here = record { position = some goal; altitude = none }

abbrev flying : Flight
flying = record { armed = true; in_air = true; arm_ready = some true; takeoff_ready = some true }

-- The vehicle flies at the destination, and every command is answered at once.
abbrev arrived : Turn
arrived = record {
  clock = 1;
  location = some here;
  flight = some flying;
  response = some (ok tt);
  received = ok none;
}

abbrev lost : Turn
lost = record arrived { clock = 200; location = none }

abbrev here_only : Metric
here_only _ _ = 0

abbrev world : World
world = record { ingress = waiting; script = arrived ∷ arrived ∷ arrived ∷ arrived ∷ arrived ∷ [] }

execute_remote-Reported_example :
    Reported here_only settings remote goal waiting (execute_remote here_only settings remote world)
unfolding resolve_move_destination mpfc.Dict.lookup
execute_remote-Reported_example = execute_remote-Reported here_only settings remote goal world refl

-- The location of the task has not arrived.
abbrev without_location : ExecutionIngress
without_location = record waiting { records = record waiting.records { locations = [] } }

execute_remote_unanswered_example :
    execute_remote here_only settings remote (record { ingress = without_location; script = [] })
    ≡ some (
      err (error ErrorClass.attribute_error "'ExecutionBundle' object has no attribute 'uid'"),
      record {
        ingress = record without_location { sent = Sent.lifecycle "IDLE" none ∷ [] };
        script = [];
      },
    )
unfolding resolve_move_destination mpfc.Dict.lookup
execute_remote_unanswered_example =
    execute_remote_unanswered here_only settings remote
      (error ErrorClass.value_error "TaskManeuver/MOVE location_uid is unresolved")
      (record { ingress = without_location; script = [] }) refl

validate_execution_bundle_iff_example :
    (validate_execution_bundle
        (Model.execution execution)
        (Model.assignment assignment)
        (Model.task task)
        (Model.plan plan)
        "node-1"
        "uav-1"
      ≡ ok bundle)
    ↔ ((bundle ≡ bundle) × IsExecutable bundle "node-1" "uav-1")
validate_execution_bundle_iff_example =
    validate_execution_bundle_iff execution assignment task plan "node-1" "uav-1" bundle

abbrev arriving : Inbound
arriving = record { is_object = true; source = "c2"; model = ok (Model.execution execution) }

ingest_occid-EndsReady_example : EndsReady settings "c2" (ingest_occid settings arriving waiting)
ingest_occid-EndsReady_example = ingest_occid-EndsReady settings arriving waiting

-- The execution does become ready.
arriving-remote : (ingest_occid settings arriving waiting).0 ≡ ok (remote ∷ [])
unfolding ingest_occid store_model dispatch_id_of mpfc.Dict.insert find_ready mpfc.Dict.lookup admit
    validate_execution_bundle mpfc.Ingress.Bundle.check_bundle
arriving-remote = refl

-- The node works on another execution, under another dispatch.
abbrev working : ExecutionIngress
working = record waiting {
  active_execution_id = some "execution-0";
  active_dispatch_id = some "dispatch-0";
  lifecycle_state = "BUSY";
}

pump_with_ingress_refuses_example :
    let o = pump_with_ingress settings (ok (some arriving)) working in
    ((e : Error) × ((ingest_occid settings arriving working).0 ≡ err e) × (o ≡ (err e, working)))
    ⊎ ((remotes : List RemoteExecution) × (answers : List Sent) × ((ingest_occid settings arriving
            working).0
          ≡ ok remotes)
        × (o.0 ≡ ok tt)
        × Keeps working o.1
        × All (IsRejection "c2") answers
        × (o.1.sent ≡ answers ++ map busy_refusal remotes))
pump_with_ingress_refuses_example = pump_with_ingress_refuses settings arriving working

track_ends_example :
    track here_only settings remote goal (3000, 2000) 100 0 (lost ∷ []) waiting ≢ none
track_ends_example =
    track_ends here_only settings remote goal (3000, 2000) 100 0 (lost ∷ []) waiting
      (inl (omega arith))

-- A check that finds nothing.
abbrev never : Turn → Option (Result (Unit {0}))
never _ = none

-- A quiet bus, one turn a tick.
ticks : ℕ → ℕ → List Turn
ticks zero c = []
ticks (suc n) c = record lost { clock = c } ∷ ticks n (suc c)

ticks-Rises : (n c : ℕ) → Rises c (ticks n c)
unfolding ticks
ticks-Rises zero c = tt
ticks-Rises (suc n) c = (omega arith, ticks-Rises n (suc c))

length-ticks : (n c : ℕ) → length (ticks n c) ≡ n
unfolding ticks
length-ticks zero c = refl
length-ticks (suc n) c = omega (arith, length-ticks n (suc c))

execute_remote_ends_example :
    execute_remote here_only settings remote (record { ingress = waiting; script = ticks 218 0 })
    ≢ none
execute_remote_ends_example =
    execute_remote_ends here_only settings remote
      (record { ingress = waiting; script = ticks 218 0 }) (ticks-Rises 218 0)
      (omega (arith, length-ticks 218 0))
