-- ===== src/Msp/Main.antt =====
-- The main loop of the adapter, and its end.
use mpfc.Prelude.{
  ℕ, String, Bool, true, false, not, ◌&&◌, Option, none, some, List, [], ◌∷◌, nat_equality,
  string_equality, pair_equality, if◌then◌else◌,
}
use mpfc.Exec.{ErrorClass, Error, Result, ok, err}
use mpfc.Json.{Value}
use mpfc.Mqtt.{MqttBusClient}
use mpfc.Runtime.{post, flush_queue, recv_message, publish_error, stop}
use mpfc.Scheduler.{flush}
use mpfc.Msp.{Settings, MspInterface}
use mpfc.Msp.Loops.{on_message}

-- The messages that the scheduler publishes.
unfoldable pub post_each : List (String × Value) → MqttBusClient → MqttBusClient
unfolding post
post_each [] client = client
post_each ((topic, message) ∷ rest) client = post_each rest (post topic message client)

-- What a turn of the main loop comes to.
pub data Turn : Type 0 where
  more : Turn
  shut_down : Turn
  raised : Error → Turn

abbrev is_exit : Error → Bool
is_exit e = elim e.class [ ErrorClass.system_exit ↦ true | _ ↦ false ]

-- Behind the pump.
unfoldable pub after_pump :
    Settings → ℕ → ℕ → Result (Option (String × Value)) → MspInterface → Turn × MspInterface
unfolding on_message
after_pump s now wall (err e) g =
    if is_exit e
    then (shut_down, record g { shutdown_requested = true; stop_event = true })
    else (raised e, g)
after_pump s now wall (ok none) g = (more, g)
after_pump s now wall (ok (some (topic, payload))) g =
    let (result, g') = on_message s now wall topic payload g in
    (elim result [ ok _ ↦ more | err e ↦ raised e ], g')

abbrev flush_state : ℕ → ℕ → MspInterface → Result (Unit {0}) × MspInterface
flush_state now wall g =
    let (sent, scheduler) = flush now wall g.state_scheduler in
    elim sent [
      | err e ↦ (err e, record g { state_scheduler = scheduler })
      | ok messages ↦ (
        ok tt,
        record g {
          state_scheduler = scheduler;
          runtime = record g.runtime { client = post_each messages g.runtime.client };
        },
      )
    ]

-- A turn of the loop of `run`. The router has no topics of its own, so that a message passes it.
unfoldable pub run_turn : Settings → ℕ → ℕ → MspInterface → Turn × MspInterface
unfolding post_each after_pump
run_turn s now wall g =
    let (flushed, g') = flush_state now wall g in
    elim flushed [
      | err e ↦ (raised e, g')
      | ok _ ↦
          let answered = record g' { runtime = flush_queue s.response_topic wall g'.runtime } in
          elim answered.loop_error [
            | some e ↦ (raised e, answered)
            | none ↦
                let (received, runtime) = recv_message wall answered.runtime in
                after_pump s now wall received (record answered { runtime = runtime })
          ]
    ]

-- The `finally` clause of `run`, behind the joins of the threads: the error that it raises, if any.
unfoldable pub close_down : Settings → ℕ → MspInterface → Option Error × MspInterface
close_down s wall g =
    let answered = record g {
      stop_event = true;
      runtime = flush_queue s.response_topic wall g.runtime;
    } in
    elim answered.loop_error [
      | none ↦ (none, record answered { runtime = stop wall answered.runtime })
      | some e ↦
          if not answered.shutdown_requested && not answered.loop_error_published
          then (
            some e,
            record answered { runtime = publish_error (s.readers.trace e) wall answered.runtime },
          )
          else (some e, answered)
    ]
