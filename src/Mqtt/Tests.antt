-- ===== src/Mqtt/Tests.antt =====
-- Two clients on one prefix.
use mpfc.Prelude.{
  String, ◌≡◌, refl, Bool, true, false, none, some, [], ◌∷◌, nat_equality, string_equality,
  pair_equality,
}
use mpfc.Exec.{ok}
use mpfc.Json.{str}
use mpfc.Mqtt.{MqttBusClient, full_topic, on_message, publish}
use mpfc.Mqtt.Delivery.{on_message-publish}

abbrev client : MqttBusClient
client = record {
  topic_prefix = "mpfc/uav";
  inbox = [];
  connected = false;
  connect_rc = none;
  subscriptions = "SET/core" ∷ [];
  background_error = none;
  closed = false;
  wire = [];
  held = [];
}

on_message-publish_example :
    ((publish 0 "DIAG/core/PING" (str "?") client).0 ≡ ok tt)
    × ((publish 0 "DIAG/core/PING" (str "?") client).1.wire
        ≡ (full_topic client "DIAG/core/PING", str "?") ∷ [])
    × ((on_message (full_topic client "DIAG/core/PING") (some (str "?")) client).inbox
        ≡ ("DIAG/core/PING", str "?") ∷ [])
on_message-publish_example =
    on_message-publish "DIAG/core/PING" (str "?") client client refl refl refl

abbrev takes_all : String → Bool
takes_all _ = true

takes_all-true : (t : String) → takes_all t ≡ true
takes_all-true t = refl
