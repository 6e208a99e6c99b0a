-- ===== src/Mavsdk/Tasks.antt =====
-- The tasks of `_async_main` on their one thread. A task runs from a call's answer to its next call
-- without a break; between them any other task, the main thread and the vehicle may act.
use mpfc.Prelude.{
  ℕ, String, ◌≡◌, Bool, true, false, List, ◌∷◌, nat_equality, string_equality, pair_equality,
  if◌then◌else◌,
}
use mpfc.Exec.{Error, Result, ok, err}
use mpfc.Json.{Value}
use mpfc.Mavsdk.{Call, Settings, MavsdkInterface, Co, done, await, Act}
use mpfc.Mavsdk.Inputs.{process_requests, process_inputs, manual_control_turn}
use mpfc.Mavsdk.Telemetry.{Sample, watch, on_message}

-- A task between two of its turns, at a call, or ended by an error.
pub data Task : Type 0 where
  idle : Task
  waiting : Call → (Result (Unit {0}) → MavsdkInterface → Co (Unit {0})) → Task
  failed : Error → Task

pub data TaskId : Type 0 where
  requests inputs manual : TaskId

-- `issued` are the calls made so far, each with the state in which it was made, the latest first.
pub record System : Type 0 where
  pub node : MavsdkInterface
  pub tasks : TaskId → Task
  pub issued : List (Call × MavsdkInterface)

abbrev pub same_task : TaskId → TaskId → Bool
same_task TaskId.requests TaskId.requests = true
same_task TaskId.inputs TaskId.inputs = true
same_task TaskId.manual TaskId.manual = true
same_task _ _ = false

abbrev pub put_task : TaskId → Task → (TaskId → Task) → TaskId → Task
put_task i task tasks j = if same_task i j then task else tasks j

-- The turn of a task's loop.
unfoldable pub turn : Settings → TaskId → Act (Unit {0})
unfolding process_requests process_inputs manual_control_turn
turn s TaskId.requests = process_requests s
turn s TaskId.inputs = process_inputs s
turn s TaskId.manual = manual_control_turn s

-- What a task leaves when it gives way.
unfoldable pub give_way : TaskId → Co (Unit {0}) → System → System
give_way i (done (ok _) g) w = record w { node = g; tasks = put_task i Task.idle w.tasks }
give_way i (done (err e) g) w = record w { node = g; tasks = put_task i (Task.failed e) w.tasks }
give_way i (await c g k) w = record w {
  node = g;
  tasks = put_task i (Task.waiting c k) w.tasks;
  issued = (c, g) ∷ w.issued;
}

-- The state when a call is answered.
abbrev pub answered : Call → Result (Unit {0}) → MavsdkInterface → MavsdkInterface
answered c (ok _) g = record g { completed = c ∷ g.completed }
answered c (err e) g = g

-- The state that a coroutine which does not wait leaves.
abbrev pub state_of : MavsdkInterface → Co (Unit {0}) → MavsdkInterface
state_of g (done _ h) = h
state_of g (await _ h _) = h

-- A step of the adapter.
pub data Step (s : Settings) : System → System → Type 0 where
  begun :
      (i : TaskId) (w : System) → w.tasks i ≡ Task.idle → Step s w (give_way i (turn s i w.node) w)
  resumed :
      (i : TaskId) (c : Call) (k : Result (Unit {0}) → MavsdkInterface → Co (Unit {0}))
      (r : Result (Unit {0})) (w : System)
      → w.tasks i ≡ Task.waiting c k
      → Step s w (give_way i (k r (answered c r w.node)) w)
  watched :
      (x : Sample) (w : System) → Step s w (record w { node = state_of w.node (watch s x w.node) })
  received :
      (topic : String) (payload : Value) (w : System)
      → Step s w (record w { node = state_of w.node (on_message s topic payload w.node) })
  ticked : (now : ℕ) (w : System) → Step s w (record w { node = record w.node { clock = now } })
  stopped : (w : System) → Step s w (record w { node = record w.node { stop_event = true } })

-- Any steps, in any order.
pub data Reach (s : Settings) (w : System) : System → Type 0 where
  here : Reach s w w
  next : {v u : System} → Reach s w v → Step s v u → Reach s w u
