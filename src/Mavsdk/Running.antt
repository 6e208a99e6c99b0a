-- ===== src/Mavsdk/Running.antt =====
-- What holds of the adapter over all orders of its tasks' steps.
use mpfc.Prelude.{
  ◌≡◌, sym, Bool, true, false, [], nat_equality, string_equality, pair_equality, if◌then◌else◌, All,
}
use mathlib.Core.Path.{subst}
use mpfc.Exec.{Result, ok, err}
use mpfc.Mavsdk.{Settings, MavsdkInterface, Co, done, await}
use mpfc.Mavsdk.Telemetry.{watch, on_message}
use mpfc.Mavsdk.Tasks.{
  Task, TaskId, System, turn, give_way, answered, state_of, Step, Reach, same_task,
}
use mpfc.Mavsdk.Guards.{is_running, Tracks, IsPermitted, Guarded}
use mpfc.Mavsdk.Steers.{
  process_requests-Guarded, process_inputs-Guarded, manual_control_turn-Guarded,
}
use mpfc.Mavsdk.Watching.{watch-Guarded, on_message-Guarded}

module _ (s : Settings) where
  turn-Guarded : (i : TaskId) (g : MavsdkInterface) → Tracks g → Guarded s (turn s i g)
  unfolding turn
  turn-Guarded TaskId.requests g t = process_requests-Guarded s g t
  turn-Guarded TaskId.inputs g t = process_inputs-Guarded s g t
  turn-Guarded TaskId.manual g t = manual_control_turn-Guarded s g t

  state_of-Tracks : (g : MavsdkInterface) (m : Co (Unit {0})) → Guarded s m → Tracks (state_of g m)
  state_of-Tracks g (done r h) t = t
  state_of-Tracks g (await c h k) (p, t, later) = t

  -- A task that waits will keep to `Guarded` whatever the answer.
  abbrev Waits : Task → Type 0
  Waits Task.idle = Unit
  Waits (Task.waiting c k) =
      (r : Result (Unit {0})) (h : MavsdkInterface) → Tracks h → Guarded s (k r (answered c r h))
  Waits (Task.failed e) = Unit

  if-Waits : (b : Bool) (x y : Task) → Waits x → Waits y → Waits (if b then x else y)
  if-Waits true x y first second = first
  if-Waits false x y first second = second

  abbrev IsSound : System → Type 0
  IsSound w =
      Tracks w.node × ((i : TaskId) → Waits (w.tasks i)) × All (λ p. IsPermitted s p.0 p.1) w.issued

  give_way-IsSound :
      (i : TaskId) (m : Co (Unit {0})) (w : System)
      → Guarded s m
      → IsSound w
      → IsSound (give_way i m w)
  unfolding give_way
  give_way-IsSound i (done (ok _) g) w t (_, tasks, calls) =
      (t, (λ j. if-Waits (same_task i j) Task.idle (w.tasks j) tt (tasks j)), calls)
  give_way-IsSound i (done (err e) g) w t (_, tasks, calls) =
      (t, (λ j. if-Waits (same_task i j) (Task.failed e) (w.tasks j) tt (tasks j)), calls)
  give_way-IsSound i (await c g k) w (p, t, later) (_, tasks, calls) = (
    t,
    (λ j. if-Waits (same_task i j) (Task.waiting c k) (w.tasks j) later (tasks j)),
    (p, calls),
  )

  Step-IsSound : {v w : System} → Step s v w → IsSound v → IsSound w
  Step-IsSound (Step.begun i w free) h =
      give_way-IsSound i (turn s i w.node) w (turn-Guarded i w.node h.0) h
  Step-IsSound (Step.resumed i c k r w held) h =
      give_way-IsSound i (k r (answered c r w.node)) w (subst Waits held (h.1 i) r w.node h.0) h
  Step-IsSound (Step.watched x w) (t, tasks, calls) =
      (state_of-Tracks w.node (watch s x w.node) (watch-Guarded s x w.node t), tasks, calls)
  Step-IsSound (Step.received topic payload w) (t, tasks, calls) = (
    state_of-Tracks w.node (on_message s topic payload w.node)
        (on_message-Guarded s topic payload w.node t),
    tasks,
    calls,
  )
  Step-IsSound (Step.ticked now w) h = h
  Step-IsSound (Step.stopped w) h = h

  Reach-IsSound : {w v : System} → IsSound w → Reach s w v → IsSound v
  Reach-IsSound h Reach.here = h
  Reach-IsSound h (Reach.next before step) = Step-IsSound step (Reach-IsSound h before)

-- From a state in which the flag is right, all tasks are idle and no call has been made, and whatever
-- steps the tasks, the main thread and the vehicle take in whatever order: the adapter holds the offboard
-- mode for started exactly where a start is the last of the offboard calls that went through; and every
-- call was permitted where it was made: a setpoint only in the attitude process, a start only where
-- nothing is started and right behind a setpoint that went through, a stop only of what was started, a
-- stick input only in the manual process, with a sample within its timeout and a throttle from 0 to 1,
-- and the altitude control only where it is not held for started.
pub Reach-IsPermitted :
    (s : Settings) (w v : System)
    → w.node.offboard_attitude_started ≡ is_running w.node.completed
    → ((i : TaskId) → w.tasks i ≡ Task.idle)
    → w.issued ≡ []
    → Reach s w v
    → (v.node.offboard_attitude_started ≡ is_running v.node.completed)
      × All (λ p. IsPermitted s p.0 p.1) v.issued
Reach-IsPermitted s w v flag free none_yet steps =
    let (t, _, calls) =
      Reach-IsSound s
        (
          flag,
          (λ i. subst (Waits s) (sym (free i)) tt),
          subst (All (λ p. IsPermitted s p.0 p.1)) (sym none_yet) tt,
        )
        steps in
    (t, calls)
