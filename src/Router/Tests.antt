-- ===== src/Router/Tests.antt =====
-- A router of one state topic and one response topic.
use mpfc.Prelude.{
  ◌≡◌, refl, none, some, [], ◌∷◌, arith, nat_equality, string_equality, pair_equality,
}
use mpfc.Dict.{lookup, remove, insert}
use mpfc.Exec.{ok}
use mpfc.Json.{Value, str, dict, end, field, get_item}
use mpfc.Router.{BusRouter, Poll, wait_response, pump_once, dispatch, on_state, log_state}
use mpfc.Router.Wait.{pumped, wait_response_delivers, wait_response-EndsTaken, EndsTaken}

abbrev router : BusRouter
router = record {
  client_id = "core";
  poll_interval_s = 1;
  state = [];
  responses = [];
  state_topics = ("uav/STATE/mode", "mode") ∷ [];
  response_topics = "uav/RESPONSE" ∷ [];
  set_attr_handlers = [];
  attrs = [];
  request_counter = 0;
  state_log_keys = [];
  state_log_interval_s = none;
  state_log_last = 0;
}

abbrev quiet : Poll
quiet = record { clock = 11; received = ok none }

abbrev response : Value
response = dict (field "request_id" (str "req-1") end)

abbrev message : Value
message = dict (field "data" response end)

wait_response-EndsTaken_example : EndsTaken "req-1" (
    wait_response 10 "req-1"
      (record { clock = 9; received = ok (some ("uav/RESPONSE", message)) } ∷ [])
      router)
wait_response-EndsTaken_example =
    wait_response-EndsTaken 10 "req-1"
      (record { clock = 9; received = ok (some ("uav/RESPONSE", message)) } ∷ []) router

abbrev early : Poll
early = record {
  clock = 8;
  received = ok (some ("uav/STATE/mode", dict (field "data" (str "AUTO") end)));
}

abbrev informed : BusRouter
informed = (pump_once early.clock early.received router).1

-- A state message comes before the response.
wait_response_delivers_example :
    wait_response 10 "req-1"
      (early ∷ record { clock = 9; received = ok (some ("uav/RESPONSE", message)) } ∷ quiet ∷ [])
      router
    ≡ some (ok response, record informed { responses = [] })
unfolding lookup get_item remove insert pumped pump_once dispatch on_state log_state
wait_response_delivers_example =
    wait_response_delivers 10 9 "req-1" "uav/RESPONSE" message response (early ∷ []) (quiet ∷ [])
      router refl
      (omega arith, (some ("uav/STATE/mode", dict (field "data" (str "AUTO") end)), refl), refl, tt)
      (omega arith) refl refl refl refl
