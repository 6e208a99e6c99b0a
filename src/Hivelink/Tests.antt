-- ===== src/Hivelink/Tests.antt =====
-- A started link, and an envelope for a remote node.
use mpfc.Prelude.{
  ◌≡◌, ◌⊎◌, true, false, none, some, [], ◌∷◌, nat_equality, string_equality, pair_equality,
}
use mpfc.Exec.{Error, ok, err}
use mpfc.Json.{Value, null, str, dict, end, field, build_envelope}
use mpfc.Occid.{Model}
use mpfc.Runtime.{Role}
use mpfc.Hivelink.{Transmission, Settings, HiveLinkPlugin, send_outbound}
use mpfc.Hivelink.Asking.{IsFor, is_ok}
use mpfc.Hivelink.Relay.{send_outbound-IsRelayed}

abbrev settings : Settings
settings = record {
  codec = record {
    unpack = λ _. ok (Model.other_model "Text");
    pack = λ _. null;
    blank_readiness = record {
      armable = false;
      ekf_using_gps = false;
      arm_ready = false;
      takeoff_ready = false;
    };
    blank_navigation = record {
      local_position_ok = false;
      global_position_ok = false;
      home_position_ok = false;
    };
  };
  show = λ _. "?";
  trace = λ e. e.text;
  b64decode = ok;
  deliver = λ _ _. true;
  to_float = ok;
  wall_time = λ _. null;
  out_topic = "OCCID/OUT";
  in_topic = "OCCID/IN";
  default_udp = true;
  default_mesh = false;
  default_multicast = false;
}

abbrev link : HiveLinkPlugin
link = record {
  runtime = record {
    role = Role.plugin;
    client_id = "hivelink";
    client = record {
      topic_prefix = "mpfc/uav";
      inbox = [];
      connected = true;
      connect_rc = some 0;
      subscriptions = [];
      background_error = none;
      closed = false;
      wire = [];
      held = [];
    };
    stopped = false;
    event_topics = [];
    response_queue = [];
  };
  datalink_started = true;
  loop_error = none;
  inbound_queue = [];
  sent = [];
}

abbrev envelope : Value
envelope =
    build_envelope "core" "OCCID/OUT" 5
      (dict (field "dest" (str "base") (field "model" (str "packed") end)))

send_outbound-IsRelayed_example :
    let o = send_outbound settings envelope link in
    (((e : Error) × (o ≡ (err e, link)))
      ⊎ ((t : Transmission) × IsFor settings envelope t
          × (true ≡ true)
          × (o.1 ≡ record link { sent = t ∷ [] })
          × (is_ok o.0 ≡ true)))
    × ((t : Transmission)
        → IsFor settings envelope t
        → true ≡ true
        → o.1 ≡ record link { sent = t ∷ [] })
send_outbound-IsRelayed_example = send_outbound-IsRelayed settings envelope link
