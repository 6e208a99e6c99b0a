-- ===== src/Ingress.antt =====
-- plugins/execution_ingress/execution_ingress.py: the data of execution ingress. UIDs are their texts;
-- an OCCID enumeration has the members that the code names and an `other`; coordinates, altitudes and
-- distances are whole numbers of a small unit (1 unit = 1 mm for lengths), and progress is in
-- thousandths.
pub mod Bundle
pub mod Keeping
pub mod Store
pub mod Vehicle
pub mod Track
pub mod Execute
pub mod Validation
pub mod Reports
pub mod Silent
pub mod Assembly
pub mod Busy
pub mod Outcome
pub mod Arrival
pub mod Within
pub mod Ending
pub mod Tests
use mpfc.Prelude.{
  ℕ, zero, suc, ◌+◌, ◌-◌, ◌*◌, ◌/◌, ◌%◌, ◌≤◌, ◌<◌, min, max, String, ◌≡◌, refl, sym, ap, ◌∙◌, ◌≢◌,
  ◌↔◌, ◌⊎◌, inl, inr, Bool, true, false, not, ◌&&◌, ◌||◌, Option, none, some, List, [], ◌∷◌, ◌++◌,
  map, arith, eq_iff, Equality, nat_equality, string_equality, pair_equality, ◌==◌, beq_refl,
  beq-sym, beq→eq, ne→beq, ltb, leb, if◌then◌else◌, is_some, ltb→lt, lt→ltb, ge→ltb, ltb→ge,
  Bool-cases, Option-cases, length, length-append, any, all, keep, All, All-append,
}
use mpfc.Dict.{Dict, lookup, contains, insert, remove, keys}
use mpfc.Exec.{
  ErrorClass, Error, error, is_data_error, is_exception, Result, ok, err, ◌>>=◌, ◌>>◌, raise,
  raise_if, or_raise, >>=-eq-ok, ok-injective, Result-cases,
}
use mpfc.Prelude.Int.{ℤ}

abbrev pub Uid : Type 0
Uid = String

pub record GlobalPosition : Type 0 where
  pub lat : ℤ
  pub lon : ℤ
  pub alt : ℤ
  pub alt_frame : String

pub record AltitudeState : Type 0 where
  pub absolute_datum : String
  pub absolute_m : Option ℤ
  pub relative_datum : String
  pub relative_m : Option ℤ

pub record LocationState : Type 0 where
  pub position : Option GlobalPosition
  pub altitude : Option AltitudeState

-- A Location record; `position` where it carries a GlobalPosition.
pub record Location : Type 0 where
  pub uid : Uid
  pub position : Option GlobalPosition

pub data ManeuverIntent : Type 0 where
  move other_intent : ManeuverIntent

pub data TaskKind : Type 0 where
  maneuver : ManeuverIntent → List Uid → TaskKind
  other_kind : TaskKind

pub data TaskStatus : Type 0 where
  complete failed cancelled other_status : TaskStatus

pub record Task : Type 0 where
  pub uid : Uid
  pub kind : TaskKind
  pub status : TaskStatus
  pub instruction : String

pub data AssignmentStatus : Type 0 where
  assigned accepted active other_status : AssignmentStatus

-- `task_uid` where the class of the assignment has that attribute.
pub record Assignment : Type 0 where
  pub uid : Uid
  pub task_uid : Option Uid
  pub assignee_uid : Uid
  pub status : AssignmentStatus

pub data PlanApprovalState : Type 0 where
  approved other_state : PlanApprovalState

pub record Plan : Type 0 where
  pub uid : Uid
  pub approval_state : PlanApprovalState
  pub task_uids : Option (List Uid)
  pub assignment_uids : Option (List Uid)

pub data ExecutionPhase : Type 0 where
  created queued running succeeded failed other_phase : ExecutionPhase

pub record Execution : Type 0 where
  pub uid : Uid
  pub assignment_uid : Uid
  pub executor_uid : Uid
  pub phase : ExecutionPhase
  pub external_job_refs : List String

-- A decoded model, by the class tests of the code.
pub data Model : Type 0 where
  location : Location → Model
  plan : Plan → Model
  task : Task → Model
  assignment : Assignment → Model
  execution : Execution → Model
  other_model : Model

pub record ExecutionBundle : Type 0 where
  pub execution : Execution
  pub assignment : Assignment
  pub task : Task
  pub plan : Plan

pub record RemoteExecution : Type 0 where
  pub source : String
  pub dispatch_id : String
  pub bundle : ExecutionBundle

pub data TaskPhase : Type 0 where
  dispatched running done_ok done_fail : TaskPhase

pub record TaskDelta : Type 0 where
  pub task_uid : Uid
  pub phase : TaskPhase
  pub progress : Option ℕ

pub record ExecutionAcceptance : Type 0 where
  pub dest : String
  pub execution_uid : Uid
  pub dispatch_ref : String
  pub accepted : Bool
  pub retryable : Bool
  pub reason : Option String

pub record ExecutionStatusReport : Type 0 where
  pub dest : String
  pub subject_uid : Uid
  pub dispatch_ref : String
  pub phase : ExecutionPhase
  pub task_delta : Option TaskDelta
  pub entity_state : Option LocationState
  pub progress : Option ℕ
  pub failure : Option String

-- A message that the ingress sends: to a node over `OCCID/OUT`, or its lifecycle on the local bus,
-- with the dispatch id of the execution that it is about.
pub data Sent : Type 0 where
  acceptance : ExecutionAcceptance → Sent
  status : ExecutionStatusReport → Sent
  entity : String → LocationState → Sent
  lifecycle : String → Option String → Sent

-- The commands that a move gives to the vehicle.
pub data UavCommand : Type 0 where
  takeoff_altitude : ℤ → UavCommand
  arm takeoff : UavCommand
  go_to : GlobalPosition → UavCommand

-- Settings of the configuration; `takeoff_fraction` is in thousandths.
pub record Settings : Type 0 where
  pub executor_uid : Uid
  pub asset_uid : Uid
  pub response_timeout : ℕ
  pub state_timeout : ℕ
  pub execution_timeout : ℕ
  pub progress_interval : ℕ
  pub arrival_radius : ℕ
  pub altitude_tolerance : ℕ
  pub auto_takeoff_for_move : Bool
  pub takeoff_altitude : ℤ
  pub takeoff_fraction : ℕ
  pub post_takeoff_wait : ℕ
  pub state_publish_interval : ℕ
  pub control_node : String

-- `self.records`, one dictionary for each kind, keyed by source and UID.
pub record Records : Type 0 where
  pub locations : Dict (String × Uid) Location
  pub plans : Dict (String × Uid) Plan
  pub tasks : Dict (String × Uid) Task
  pub assignments : Dict (String × Uid) Assignment

pub record ExecutionIngress : Type 0 where
  pub records : Records
  pub pending_executions : Dict (String × String) Execution
  pub active_execution_id : Option Uid
  pub active_dispatch_id : Option String
  pub last_state_publish : ℕ
  pub lifecycle_state : String
  pub sent : List Sent
  pub commands : List UavCommand

abbrev pub send : Sent → ExecutionIngress → ExecutionIngress
send m g = record g { sent = g.sent ++ m ∷ [] }

abbrev pub among : Uid → List Uid → Bool
among u us = any (λ v. v == u) us
