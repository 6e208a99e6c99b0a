-- ===== src/Ingress/Execute.antt =====
-- The execution of a move and what becomes of it: `_execute_remote` and the loop of `run` in
-- plugins/execution_ingress/execution_ingress.py.
use mpfc.Prelude.{
  ◌+◌, max, String, true, false, Option, none, some, List, [], ◌∷◌, nat_equality, string_equality,
  pair_equality, leb, if◌then◌else◌,
}
use mpfc.Exec.{Error, is_exception, Result, ok, err}
use mpfc.Ingress.{
  GlobalPosition, LocationState, RemoteExecution, Sent, UavCommand, Settings, ExecutionIngress,
  send,
}
use mpfc.Ingress.Store.{of_execution, of_bundle, send_acceptance, ingest_occid}
use mpfc.Ingress.Keeping.{resolve_move_destination}
use mpfc.Ingress.Vehicle.{
  Turn, World, Move, ◌>>=◌, ◌>>◌, pure, lift, change, peek, execute, positioned, wait_for_location,
  prepare_vehicle_for_move,
}
use mpfc.Ingress.Track.{
  Metric, arrival_metrics, running_report, queued_report, failure_report, track,
}

-- `_execute_move`
unfoldable pub execute_move : Metric → Settings → RemoteExecution → GlobalPosition → Move (Unit {0})
unfolding track
execute_move distance_m s r destination = do
  _ ← wait_for_location s
  prepare_vehicle_for_move s destination
  current ← wait_for_location s
  initial ← lift (arrival_metrics distance_m current destination)
  execute s (UavCommand.go_to destination)
  change (send (running_report r current 0))
  first ← peek
  λ w.
      track distance_m s r destination
        (max (max initial.0 s.arrival_radius) 10, max (max initial.1 s.altitude_tolerance) 10)
        (first.clock + s.execution_timeout) 0 w.script w.ingress

abbrev pub set_lifecycle : String → Option String → ExecutionIngress → ExecutionIngress
set_lifecycle state dispatch_id g =
    send (Sent.lifecycle state dispatch_id) (record g { lifecycle_state = state })

-- The `finally` of `_execute_remote`.
unfoldable pub finish : ExecutionIngress → ExecutionIngress
finish g =
    set_lifecycle "IDLE" none (record g { active_execution_id = none; active_dispatch_id = none })

-- What the `try` of `_execute_remote` does until the acceptance is out.
unfoldable pub accept : RemoteExecution → ExecutionIngress → ExecutionIngress
unfolding send_acceptance
accept r g =
    (send_acceptance r.source (of_execution r.bundle.execution) r.dispatch_id true false none (
      set_lifecycle "EXECUTING" (some r.dispatch_id) (record g {
        active_execution_id = some r.bundle.execution.uid;
        active_dispatch_id = some r.dispatch_id;
      }))).1

abbrev pub location_now : World → Option LocationState
location_now w = elim w.script [ [] ↦ none | t ∷ _ ↦ positioned t.location ]

-- The `except Exception` behind the acceptance, and then the `finally`. `SystemExit` passes by.
unfoldable pub conclude : RemoteExecution → Result (Unit {0}) × World → Result (Unit {0}) × World
unfolding finish
conclude r (ok _, w) = (ok tt, record w { ingress = finish w.ingress })
conclude r (err e, w) =
    if is_exception e
    then (
      ok tt,
      record w { ingress = finish (send (failure_report r (location_now w) e.text) w.ingress) },
    )
    else (err e, record w { ingress = finish w.ingress })

-- The `except Exception` before the acceptance: the code hands `_send_acceptance` the bundle.
unfoldable pub refuse : RemoteExecution → Error → World → Result (Unit {0}) × World
unfolding send_acceptance finish
refuse r e w =
    let (result, g) =
      send_acceptance r.source (of_bundle r.bundle) r.dispatch_id false false (some e.text)
        w.ingress in
    (result, record w { ingress = finish g })

-- `_execute_remote`; `none` where the turns end before the move does.
unfoldable pub execute_remote : Metric → Settings → RemoteExecution → Move (Unit {0})
unfolding execute_move accept conclude refuse
execute_remote distance_m s r w =
    elim (resolve_move_destination r.source r.bundle.task w.ingress.records) [
      | err e ↦ some (refuse r e w)
      | ok destination ↦
          elim (execute_move distance_m s r destination
            (record w { ingress = send (queued_report r) (accept r w.ingress) })) [
              | none ↦ none
              | some outcome ↦ some (conclude r outcome)
            ]
    ]

-- The `for` loop of `run`.
unfoldable pub execute_all : Metric → Settings → List RemoteExecution → Move (Unit {0})
unfolding execute_remote
execute_all distance_m s [] = pure tt
execute_all distance_m s (r ∷ rest) = do
  execute_remote distance_m s r
  execute_all distance_m s rest

-- `_publish_entity_state`, as often as the interval allows.
unfoldable pub publish_entity_state : Settings → Turn → ExecutionIngress → ExecutionIngress
publish_entity_state s t g = elim (leb (g.last_state_publish + s.state_publish_interval) t.clock) [
  | false ↦ g
  | true ↦
      let g' = elim (positioned t.location) as (λ _. ExecutionIngress) [
        | none ↦ g
        | some here ↦ send (Sent.entity s.control_node here) g
      ] in
      record g' { last_state_publish = t.clock }
]

-- One turn of the loop of `run`.
unfoldable pub run_turn : Metric → Settings → Move (Unit {0})
unfolding execute_all publish_entity_state
run_turn distance_m s w = elim w.script [
  | [] ↦ none
  | t ∷ ts ↦ elim t.received [
    | err e ↦ some (err e, record w { script = ts })
    | ok received ↦
        let g = publish_entity_state s t w.ingress in
        elim received [
          | none ↦ some (ok tt, record { ingress = g; script = ts })
          | some m ↦
              let (result, g') = ingest_occid s m g in
              elim result [
                | err e ↦ some (err e, record { ingress = g'; script = ts })
                | ok remotes ↦
                    execute_all distance_m s remotes (record { ingress = g'; script = ts })
              ]
        ]
  ]
]
