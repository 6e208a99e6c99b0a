-- ===== src/Ingress/Ending.antt =====
-- How many turns an execution takes at most.
use mathlib.Core.Path.{subst}
use mpfc.Prelude.{
  ℕ, zero, suc, ◌+◌, ◌*◌, ◌≤◌, ◌<◌, max, String, ◌≢◌, inl, inr, Bool, not, Option, none, List, [],
  ◌∷◌, ◌++◌, arith, nat_equality, string_equality, pair_equality, ◌==◌, ltb, ltb→ge, Bool-cases,
  Option-cases, length,
}
use mpfc.Exec.{ErrorClass, error, Result, Result-cases}
use mpfc.Prelude.Int.{ℤ}
use mpfc.Ingress.{GlobalPosition, RemoteExecution, UavCommand, Settings, ExecutionIngress, send}
use mpfc.Ingress.Keeping.{resolve_move_destination}
use mpfc.Ingress.Vehicle.{
  Turn, World, ◌>>◌, pure, fail, lift, change, pump_with_ingress, wait, execute, flight_is, located,
  post_takeoff, arm_if_needed, wait_until, takeoff_altitude_for, wait_for_location, take_off,
  prepare_vehicle_for_move,
}
use mpfc.Ingress.Execute.{accept, execute_move, execute_remote}
use mpfc.Ingress.Track.{
  queued_report, Metric, Metrics, observe, is_arrived, report_progress, running_report,
  arrival_metrics, track,
}
use mpfc.Ingress.Within.{
  Rises, Rises-le, Within, EndsIn, EndsIn-le, bind-EndsIn, then-EndsIn, if-EndsIn, lift-EndsIn,
  peek-EndsIn, until-Within, settle-Within, turn-Within,
}

module _ (s : Settings) where
  pub wait-EndsIn :
      {A : Type 0} (check : Turn → Option (Result A)) (timeout : ℕ) (text : String)
      → EndsIn (timeout + 3) (wait s check timeout text)
  unfolding wait
  wait-EndsIn check timeout text =
      EndsIn-le (suc (suc (suc timeout))) (timeout + 3) (wait s check timeout text) (omega arith) (
        peek-EndsIn (suc (suc timeout)) _ λ t ts g r enough.
          until-Within s check (t.clock + timeout) (error ErrorClass.runtime_error text) t.clock
            (suc timeout) (t ∷ ts) g (omega arith, r.1) (omega arith) enough)

  execute-EndsIn : (command : UavCommand) → EndsIn (s.response_timeout + 3) (execute s command)
  unfolding execute
  execute-EndsIn command =
      EndsIn-le (0 + (s.response_timeout + 3)) (s.response_timeout + 3) (execute s command)
        (omega arith)
        (then-EndsIn 0 (s.response_timeout + 3)
          (change (λ g. record g { commands = g.commands ++ command ∷ [] })) _
          (λ w h _. (h, omega arith))
          (wait-EndsIn (λ t. t.response) s.response_timeout "timeout waiting for UAV result"))

  wait_for_location-EndsIn : EndsIn (s.state_timeout + 3) (wait_for_location s)
  unfolding wait_for_location
  wait_for_location-EndsIn =
      wait-EndsIn located s.state_timeout "timed out waiting for UAV LocationState.position"

  wait_until-EndsIn :
      (p : Turn → Bool) (text : String) → EndsIn (s.state_timeout + 3) (wait_until s p text)
  wait_until-EndsIn p text = wait-EndsIn _ s.state_timeout text

  post_takeoff-EndsIn : EndsIn (s.post_takeoff_wait + 3) (post_takeoff s)
  post_takeoff-EndsIn =
      if-EndsIn (s.post_takeoff_wait + 3) (s.post_takeoff_wait == 0) (pure tt) _
        (λ w h enough. (h, omega arith))
        (EndsIn-le (suc (suc (suc s.post_takeoff_wait))) (s.post_takeoff_wait + 3) _ (omega arith) (
          peek-EndsIn (suc (suc s.post_takeoff_wait)) _ λ t ts g r enough.
            settle-Within s (t.clock + s.post_takeoff_wait) t.clock (suc s.post_takeoff_wait)
              (t ∷ ts) g (omega arith, r.1) (omega arith) enough))

  abbrev command_turns : ℕ
  command_turns = (s.response_timeout + 3) + (s.state_timeout + 3)

  arm_if_needed-EndsIn : EndsIn (suc command_turns) (arm_if_needed s)
  arm_if_needed-EndsIn = peek-EndsIn command_turns _ λ t ts g r enough.
      if-EndsIn command_turns (flight_is (λ f. f.armed) t) (pure tt)
        (execute s UavCommand.arm
          >> wait_until s (flight_is (λ f. f.armed)) "timed out waiting for UAV armed state")
        (λ w h _. (h, omega arith))
        (then-EndsIn (s.response_timeout + 3) (s.state_timeout + 3) _ _
          (execute-EndsIn UavCommand.arm)
          (wait_until-EndsIn (flight_is (λ f. f.armed)) "timed out waiting for UAV armed state"))
        (record { ingress = g; script = t ∷ ts }) r enough

  -- A take-off: three commands and four waits for states, the look at whether to arm, and the pause.
  abbrev takeoff_turns : ℕ
  takeoff_turns = 3 * (s.response_timeout + 3) + 4 * (s.state_timeout + 3) + s.post_takeoff_wait + 4

  take_off-EndsIn : (altitude : ℤ) → EndsIn takeoff_turns (take_off s altitude)
  unfolding take_off
  take_off-EndsIn altitude =
      let r = s.response_timeout + 3 in
      let t = s.state_timeout + 3 in
      let q = s.post_takeoff_wait + 3 in
      EndsIn-le (r + (t + (suc command_turns + (t + (r + (t + q)))))) takeoff_turns
        (take_off s altitude) (omega arith)
        (then-EndsIn r _ _ _ (execute-EndsIn _) (
          then-EndsIn t _ _ _ (wait_until-EndsIn _ _) (
            then-EndsIn (suc command_turns) _ _ _ arm_if_needed-EndsIn (
              then-EndsIn t _ _ _ (wait_until-EndsIn _ _) (
                then-EndsIn r _ _ _ (execute-EndsIn _)
                  (then-EndsIn t q _ _ (wait_until-EndsIn _ _) post_takeoff-EndsIn))))))

  prepare-EndsIn : (d : GlobalPosition) → EndsIn (suc takeoff_turns) (prepare_vehicle_for_move s d)
  unfolding prepare_vehicle_for_move
  prepare-EndsIn d =
      let altitude = takeoff_altitude_for s d in
      peek-EndsIn takeoff_turns _ λ t ts g r enough.
        if-EndsIn takeoff_turns (flight_is (λ f. f.in_air) t) (pure tt) _
          (λ w h _. (h, omega arith))
          (if-EndsIn takeoff_turns (not s.auto_takeoff_for_move) (fail _) _
            (λ w h _. (h, omega arith))
            (if-EndsIn takeoff_turns _ (fail _) (take_off s altitude) (λ w h _. (h, omega arith))
              (take_off-EndsIn altitude)))
          (record { ingress = g; script = t ∷ ts }) r enough

track-Within :
    (distance_m : Metric) (s : Settings) (r : RemoteExecution) (d : GlobalPosition) (full : Metrics)
    (deadline last c k : ℕ) (ts : List Turn) (g : ExecutionIngress)
    → Rises c ts
    → deadline < c + k
    → suc k ≤ length ts
    → Within (suc k) ts (track distance_m s r d full deadline last ts g)
unfolding track
track-Within distance_m s r d full deadline last c k [] g up bound enough =
    absurd (omega (arith, enough))
track-Within distance_m s r d full deadline last c zero (t ∷ ts) g up bound enough =
    let rest = Rises-le 0 (suc t.clock) ts (omega arith) up.1 in
    elim (Result-cases (observe distance_m s d full t.location)) [
      | inl (e, f) ↦ rw (f, track) (rest, omega arith)
      | inr (seen, f) ↦
          let reported = report_progress s r seen t.clock last g in
          let p = pump_with_ingress s t.received reported.1 in
          elim (Bool-cases (is_arrived seen)) [
            | inl there ↦ rw (f, there, track) (rest, omega arith)
            | inr away ↦
                rw (f, away, track)
                  (turn-Within 0 t ts (ltb deadline t.clock) p.0
                    (error ErrorClass.runtime_error "TaskManeuver/MOVE timed out without arrival")
                    reported.1 p.1 (track distance_m s r d full deadline reported.0 ts p.1) rest
                    (λ early. absurd (omega (arith, ltb→ge deadline t.clock early, up.0, bound))))
          ]
    ]
track-Within distance_m s r d full deadline last c (suc k) (t ∷ ts) g up bound enough =
    let rest = Rises-le 0 (suc t.clock) ts (omega arith) up.1 in
    elim (Result-cases (observe distance_m s d full t.location)) [
      | inl (e, f) ↦ rw (f, track) (rest, omega arith)
      | inr (seen, f) ↦
          let reported = report_progress s r seen t.clock last g in
          let p = pump_with_ingress s t.received reported.1 in
          elim (Bool-cases (is_arrived seen)) [
            | inl there ↦ rw (f, there, track) (rest, omega arith)
            | inr away ↦
                rw (f, away, track)
                  (turn-Within (suc k) t ts (ltb deadline t.clock) p.0
                    (error ErrorClass.runtime_error "TaskManeuver/MOVE timed out without arrival")
                    reported.1 p.1 (track distance_m s r d full deadline reported.0 ts p.1) rest
                    (λ early.
                      track-Within distance_m s r d full deadline reported.0 (suc t.clock) k ts p.1
                        up.1 (omega (arith, up.0, bound)) (omega (arith, enough))))
          ]
    ]

-- The turns that a move takes at most.
abbrev pub move_turns : Settings → ℕ
move_turns s =
    4 * (s.response_timeout + 3)
    + 6 * (s.state_timeout + 3)
    + s.post_takeoff_wait
    + s.execution_timeout
    + 8

execute_move-EndsIn :
    (distance_m : Metric) (s : Settings) (r : RemoteExecution) (d : GlobalPosition)
    → EndsIn (move_turns s) (execute_move distance_m s r d)
unfolding execute_move
execute_move-EndsIn distance_m s r d =
    let a = s.response_timeout + 3 in
    let b = s.state_timeout + 3 in
    let c = suc (suc s.execution_timeout) in
    EndsIn-le (b + (suc (takeoff_turns s) + (b + (0 + (a + (0 + suc c)))))) (move_turns s)
      (execute_move distance_m s r d) (omega arith)
      (bind-EndsIn b _ _ _ (wait_for_location-EndsIn s) λ _.
        bind-EndsIn (suc (takeoff_turns s)) _ _ _ (prepare-EndsIn s d) λ _.
          bind-EndsIn b _ _ _ (wait_for_location-EndsIn s) λ current.
            bind-EndsIn 0 _ (lift (arrival_metrics distance_m current d)) _
              (lift-EndsIn (arrival_metrics distance_m current d))
              λ initial. bind-EndsIn a _ _ _ (execute-EndsIn s (UavCommand.go_to d)) λ _.
                bind-EndsIn 0 (suc c) (change (send (running_report r current 0))) _
                  (λ w h _. (h, omega arith))
                  λ _.
                    peek-EndsIn c
                      (λ first w.
                        track distance_m s r d
                          (
                            max (max initial.0 s.arrival_radius) 10,
                            max (max initial.1 s.altitude_tolerance) 10,
                          )
                          (first.clock + s.execution_timeout) 0 w.script w.ingress)
                      λ t ts g up enough.
                        track-Within distance_m s r d
                          (
                            max (max initial.0 s.arrival_radius) 10,
                            max (max initial.1 s.altitude_tolerance) 10,
                          )
                          (t.clock + s.execution_timeout) 0 t.clock (suc s.execution_timeout)
                          (t ∷ ts) g (omega arith, up.1) (omega arith) enough)

-- Where the clock moves on from turn to turn, an execution ends within a number of turns that its
-- timeouts give: it returns, or it raises.
pub execute_remote_ends :
    (distance_m : Metric) (s : Settings) (r : RemoteExecution) (w : World)
    → Rises 0 w.script
    → move_turns s ≤ length w.script
    → execute_remote distance_m s r w ≢ none
unfolding execute_remote
execute_remote_ends distance_m s r w up enough =
    elim (Result-cases (resolve_move_destination r.source r.bundle.task w.ingress.records)) [
      | inl (e, f) ↦ rw (f, execute_remote) (λ h. ground (arith, h))
      | inr (d, f) ↦
          let begun : World = record w { ingress = send (queued_report r) (accept r w.ingress) } in
          elim (Option-cases (execute_move distance_m s r d begun)) [
            | inl stuck ↦ absurd (
                subst (Within (move_turns s) w.script) stuck
                  (execute_move-EndsIn distance_m s r d begun up enough))
            | inr (outcome, k) ↦ rw (f, k, execute_remote) (λ h. ground (arith, h))
          ]
    ]
