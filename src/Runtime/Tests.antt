-- ===== src/Runtime/Tests.antt =====
-- A core that runs.
use mpfc.Prelude.{
  ◌+◌, ◌==◌, ◌≡◌, refl, ◌≢◌, Bool, true, false, none, some, List, [], ◌∷◌, ◌++◌, nat_equality,
  string_equality, pair_equality,
}
use mpfc.Exec.{ErrorClass, error, ok, raise}
use mpfc.Json.{dict, end}
use mpfc.Mqtt.{MqttBusClient}
use mpfc.Router.{BusRouter, Poll}
use mpfc.Router.Wait.{Overdue}
use mpfc.Runtime.{Runtime, Role, control_shutdown_topic, handle_received, wait_until}
use mpfc.Runtime.Lifecycle.{
  IsOpen, shutdown_messages, stopped_message, EndsWith, shutdown_announced, wait_until-EndsWith,
}

abbrev client : MqttBusClient
client = record {
  topic_prefix = "mpfc/uav";
  inbox = [];
  connected = true;
  connect_rc = some 0;
  subscriptions = [];
  background_error = none;
  closed = false;
  wire = [];
  held = [];
}

abbrev runtime : Runtime
runtime = record {
  role = Role.core;
  client_id = "core";
  client = client;
  stopped = false;
  event_topics = [];
  response_queue = [];
}

abbrev router : BusRouter
router = record {
  client_id = "core";
  poll_interval_s = 1;
  state = [];
  responses = [];
  state_topics = [];
  response_topics = [];
  set_attr_handlers = [];
  attrs = [];
  request_counter = 0;
  state_log_keys = [];
  state_log_interval_s = none;
  state_log_last = 0;
}

client-IsOpen : IsOpen client
client-IsOpen = record { opened = refl; clean = refl }

shutdown_announced_example :
    let (result, r') = handle_received 5 (ok (some (control_shutdown_topic, dict end))) runtime in
    (result ≡ raise ErrorClass.system_exit "shutdown")
    × (r'.stopped ≡ true)
    × (r'.client.closed ≡ true)
    × (r'.client.wire
        ≡ ([] ++ shutdown_messages Role.core 5 runtime) ++ stopped_message 5 runtime ∷ [])
shutdown_announced_example = shutdown_announced 5 (dict end) runtime refl client-IsOpen

abbrev counted : BusRouter → Bool
counted r = r.request_counter == 1

abbrev count : BusRouter → BusRouter
count r = record r { request_counter = r.request_counter + 1 }

abbrev polls : List Poll
polls = record { clock = 5; received = ok none } ∷ record { clock = 11; received = ok none } ∷ []

-- The condition does not hold at first, and holds behind one tick.
wait_until-EndsWith_example :
    let result =
      wait_until counted (some 10) (error ErrorClass.runtime_error "late") count polls router in
    EndsWith counted 10 (error ErrorClass.runtime_error "late") count polls result
    × (Overdue 10 polls → result ≢ none)
wait_until-EndsWith_example =
    wait_until-EndsWith counted 10 (error ErrorClass.runtime_error "late") count polls router
