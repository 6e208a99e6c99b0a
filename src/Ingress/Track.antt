-- ===== src/Ingress/Track.antt =====
-- The flight of a move, from its reports to its arrival: `_arrival_metrics`, `_publish_status` and the
-- loop of `_execute_move` in plugins/execution_ingress/execution_ingress.py.
use mpfc.Prelude.{
  ℕ, ◌+◌, ◌-◌, ◌*◌, ◌/◌, max, String, Bool, true, false, ◌&&◌, Option, none, some, List, [], ◌∷◌,
  nat_equality, string_equality, pair_equality, ◌==◌, ltb, leb, if◌then◌else◌, is_some,
}
use mpfc.Exec.{ErrorClass, error, Result, ok, err, raise}
use mpfc.Prelude.Int.{ℤ, distance}
use mpfc.Ingress.{
  GlobalPosition, LocationState, TaskPhase, TaskDelta, ExecutionPhase, ExecutionBundle,
  RemoteExecution, Sent, Settings, ExecutionIngress, send,
}
use mpfc.Ingress.Vehicle.{Turn, World, pump_with_ingress, positioned}

-- `_altitude_for_datum`
unfoldable altitude_for_datum : LocationState → String → Result ℤ
altitude_for_datum location datum =
    let from_position : Result ℤ = elim location.position [
      | none ↦ raise ErrorClass.runtime_error "LocationState has no altitude observation"
      | some p ↦
          if p.alt_frame == datum
          then ok p.alt
          else raise ErrorClass.runtime_error "LocationState has no altitude observation"
    ] in
    elim location.altitude [
      | none ↦ from_position
      | some a ↦
          if datum == a.absolute_datum && is_some a.absolute_m
          then (elim a.absolute_m [ none ↦ from_position | some m ↦ ok m ])
          else if datum == a.relative_datum && is_some a.relative_m
          then (elim a.relative_m [ none ↦ from_position | some m ↦ ok m ])
          else from_position
    ]

-- The horizontal distance is an argument: `_distance_m` is the haversine formula on floats.
abbrev pub Metric : Type 0
Metric = GlobalPosition → GlobalPosition → ℕ

abbrev pub Metrics : Type 0
Metrics = ℕ × ℕ

-- `_arrival_metrics`: the horizontal distance and the altitude error.
unfoldable pub arrival_metrics : Metric → LocationState → GlobalPosition → Result Metrics
unfolding altitude_for_datum
arrival_metrics distance_m location destination = elim location.position [
  | none ↦ raise ErrorClass.runtime_error "cannot evaluate arrival without LocationState.position"
  | some p ↦ elim (altitude_for_datum location destination.alt_frame) [
    | err e ↦ err e
    | ok altitude ↦ ok (distance_m p destination, distance altitude destination.alt)
  ]
]

abbrev pub has_arrived : Settings → Metrics → Bool
has_arrived s (horizontal, vertical) =
    leb horizontal s.arrival_radius && leb vertical s.altitude_tolerance

-- The progress in thousandths: 1 less the larger remaining fraction, and 0 where that is below 0.
unfoldable progress_of : Metrics → Metrics → ℕ
progress_of (horizontal, vertical) (horizontal_full, vertical_full) =
    1000 - max (horizontal * 1000 / horizontal_full) (vertical * 1000 / vertical_full)

abbrev delta_of : ExecutionBundle → TaskPhase → Option ℕ → TaskDelta
delta_of b phase progress = record { task_uid = b.task.uid; phase = phase; progress = progress }

-- `_publish_status`
abbrev report :
    RemoteExecution
    → ExecutionPhase
    → TaskDelta
    → Option LocationState
    → Option ℕ
    → Option String
    → Sent
report r phase delta entity progress failure = Sent.status (record {
  dest = r.source;
  subject_uid = r.bundle.execution.uid;
  dispatch_ref = r.dispatch_id;
  phase = phase;
  task_delta = some delta;
  entity_state = entity;
  progress = progress;
  failure = failure;
})

abbrev pub running_report : RemoteExecution → LocationState → ℕ → Sent
running_report r here progress =
    report r ExecutionPhase.running (delta_of r.bundle TaskPhase.running (some progress))
      (some here) (some progress) none

abbrev pub success_report : RemoteExecution → LocationState → Sent
success_report r here =
    report r ExecutionPhase.succeeded (delta_of r.bundle TaskPhase.done_ok (some 1000)) (some here)
      (some 1000) none

abbrev pub queued_report : RemoteExecution → Sent
queued_report r =
    report r ExecutionPhase.queued (delta_of r.bundle TaskPhase.dispatched (some 0)) none (some 0)
      none

abbrev pub failure_report : RemoteExecution → Option LocationState → String → Sent
failure_report r here text =
    report r ExecutionPhase.failed (delta_of r.bundle TaskPhase.done_fail none) here none
      (some text)

-- What the state of a turn says about a move.
pub data Observation : Type 0 where
  unknown : Observation
  arrived : LocationState → Observation
  under_way : LocationState → ℕ → Observation

unfoldable pub observe :
    Metric → Settings → GlobalPosition → Metrics → Option LocationState → Result Observation
unfolding arrival_metrics progress_of
observe distance_m s destination full location = elim (positioned location) [
  | none ↦ ok Observation.unknown
  | some here ↦ elim (arrival_metrics distance_m here destination) [
    | err e ↦ err e
    | ok m ↦ ok (
        if has_arrived s m
        then Observation.arrived here
        else Observation.under_way here (progress_of m full))
  ]
]

-- The time of the last report, and the ingress, behind a turn that does not end the loop.
abbrev pub report_progress :
    Settings → RemoteExecution → Observation → ℕ → ℕ → ExecutionIngress → ℕ × ExecutionIngress
report_progress s r (Observation.under_way here progress) now last g =
    if leb (last + s.progress_interval) now
    then (now, send (running_report r here progress) g)
    else (last, g)
report_progress s r _ now last g = (last, g)

abbrev pub is_arrived : Observation → Bool
is_arrived (Observation.arrived _) = true
is_arrived _ = false

abbrev pub arrival_reports : RemoteExecution → Observation → ExecutionIngress → ExecutionIngress
arrival_reports r (Observation.arrived here) g = send (success_report r here) g
arrival_reports r _ g = g

-- The loop of `_execute_move`.
unfoldable pub track :
    Metric
    → Settings
    → RemoteExecution
    → GlobalPosition
    → Metrics
    → ℕ
    → ℕ
    → List Turn
    → ExecutionIngress
    → Option (Result (Unit {0}) × World)
track distance_m s r destination full deadline last [] g = none
track distance_m s r destination full deadline last (t ∷ ts) g =
    elim (observe distance_m s destination full t.location) [
      | err e ↦ some (err e, record { ingress = g; script = ts })
      | ok seen ↦ elim (is_arrived seen) [
        | true ↦ some (ok tt, record { ingress = arrival_reports r seen g; script = ts })
        | false ↦
            let (last', reported) = report_progress s r seen t.clock last g in
            let (pumped, g') = pump_with_ingress s t.received reported in
            elim (ltb deadline t.clock) [
              | true ↦ some (
                err (error ErrorClass.runtime_error "TaskManeuver/MOVE timed out without arrival"),
                record { ingress = reported; script = ts },
              )
              | false ↦ elim pumped [
                | err e ↦ some (err e, record { ingress = g'; script = ts })
                | ok _ ↦ track distance_m s r destination full deadline last' ts g'
              ]
            ]
      ]
    ]
