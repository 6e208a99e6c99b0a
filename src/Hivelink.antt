-- ===== src/Hivelink.antt =====
-- plugins/hivelink_interface/hivelink_interface.py: OCCID models between the local bus and the remote
-- nodes. The HiveLink package is an argument: `deliver` says whether its datalink takes a transmission
-- after those before it. What the link's own thread does is seen in each turn of the main loop.
pub mod Asking
pub mod Relay
pub mod Tests
use mpfc.Prelude.{
  ℕ, zero, suc, ◌+◌, ◌-◌, ◌*◌, ◌/◌, ◌%◌, ◌≤◌, ◌<◌, min, max, String, ◌≡◌, refl, sym, ap, ◌∙◌, ◌≢◌,
  ◌↔◌, ◌⊎◌, inl, inr, Bool, true, false, not, ◌&&◌, ◌||◌, Option, none, some, List, [], ◌∷◌, ◌++◌,
  map, arith, eq_iff, Equality, nat_equality, string_equality, pair_equality, ◌==◌, beq_refl,
  beq-sym, beq→eq, ne→beq, ltb, leb, if◌then◌else◌, is_some, ltb→lt, lt→ltb, ge→ltb, ltb→ge,
  Bool-cases, Option-cases, length, length-append, any, all, keep, All, All-append,
}
use mpfc.Exec.{ErrorClass, Error, error, Result, ok, err, ◌>>=◌, raise, is_exception}
use mpfc.Prelude.Int.{ℤ, pos}
use mpfc.Json.{Value, Fields, dict, str, end, field, get, get_item, build_envelope}
use mpfc.Occid.{Codec, Model, text_of}
use mpfc.Controller.{truthy}
use mpfc.Runtime.{Runtime, post, recv_message, send_online, publish_error, stop}

-- What a transmission carries: the bytes of the Sigma SDK, or an OCCID model.
pub data Cargo : Type 0 where
  sdk_payload : String → Cargo
  occid_model : Model → Cargo

pub record Transmission : Type 0 where
  pub cargo : Cargo
  pub dest : String
  pub udp : Bool
  pub meshtastic : Bool
  pub multicast : Bool

-- A message of the datalink.
pub record Inbound : Type 0 where
  pub model : Model
  pub source : String
  pub intf : String
  pub time : Option Value

-- What does not change after `__init__`. `to_float` is Python's `float`, `wall_time` the reading of
-- `time.time()`.
pub record Settings : Type 0 where
  pub codec : Codec
  pub show : Value → String
  pub trace : Error → String
  pub b64decode : String → Result String
  pub deliver : List Transmission → Transmission → Bool
  pub to_float : Value → Result Value
  pub wall_time : ℕ → Value
  pub out_topic : String
  pub in_topic : String
  pub default_udp : Bool
  pub default_mesh : Bool
  pub default_multicast : Bool

-- `sent` are the transmissions that the datalink was asked for, in their order.
pub record HiveLinkPlugin : Type 0 where
  pub runtime : Runtime
  pub datalink_started : Bool
  pub loop_error : Option Error
  pub inbound_queue : List Inbound
  pub sent : List Transmission

-- The data of an inbound message on the local bus.
unfoldable pub inbound_data : Settings → ℕ → Inbound → Result Value
inbound_data s now m =
    s.to_float (elim m.time [ none ↦ s.wall_time now | some at ↦ at ]) >>= λ received_at. ok (
      dict (
        field "source" (str m.source) (
          field "interface" (str m.intf)
            (field "received_at" received_at (field "model" (s.codec.pack m.model) end)))))

unfoldable pub publish_inbound : Settings → ℕ → Value → Runtime → Runtime
unfolding post
publish_inbound s now body r = record r {
  client = post s.in_topic (build_envelope r.client_id s.in_topic now body) r.client;
}

-- The loop of `_flush_inbound`, over the messages in the queue.
unfoldable pub publish_all :
    Settings → ℕ → List Inbound → HiveLinkPlugin → Result (Unit {0}) × HiveLinkPlugin
unfolding inbound_data publish_inbound
publish_all s now [] g = (ok tt, record g { inbound_queue = [] })
publish_all s now (m ∷ rest) g = elim (inbound_data s now m) [
  | err e ↦ (err e, record g { inbound_queue = rest })
  | ok body ↦ publish_all s now rest (record g { runtime = publish_inbound s now body g.runtime })
]

-- `_flush_inbound`
unfoldable pub flush_inbound : Settings → ℕ → HiveLinkPlugin → Result (Unit {0}) × HiveLinkPlugin
unfolding publish_all
flush_inbound s now g = publish_all s now g.inbound_queue g

-- `bool(data.get(key, default))`
abbrev pub flag : String → Bool → Fields → Bool
flag key default body = elim (get key body) [ none ↦ default | some v ↦ truthy v ]

unfoldable pub transmission : Settings → Cargo → String → Fields → Transmission
unfolding get
transmission s cargo dest body = record {
  cargo = cargo;
  dest = dest;
  udp = flag "udp" s.default_udp body;
  meshtastic = flag "meshtastic" s.default_mesh body;
  multicast = flag "multicast" s.default_multicast body;
}

-- What is sent: opaque bytes where `sdk_payload` is given, else the unpacked model.
unfoldable pub cargo_of : Settings → Fields → Result Cargo
unfolding get get_item
cargo_of s body = elim (get "sdk_payload" body) [
  | some payload ↦ s.b64decode (text_of s.show payload) >>= λ bytes. ok (sdk_payload bytes)
  | none ↦ get_item "model" (dict body) >>= λ packed.
      s.codec.unpack packed >>= λ model. ok (occid_model model)
]

-- `datalink.send` or `datalink.send_model`, and the test of its answer
unfoldable pub send : Settings → Transmission → HiveLinkPlugin → Result (Unit {0}) × HiveLinkPlugin
send s t g =
    let g' = record g { sent = g.sent ++ t ∷ [] } in
    if s.deliver g.sent t
    then (ok tt, g')
    else (raise ErrorClass.runtime_error "HiveLink could not send", g')

abbrev pub as_object : Value → Result Fields
as_object (dict body) = ok body
as_object _ = raise ErrorClass.value_error "OCCID/OUT data must be an object"

-- `_send_outbound`, behind the test of the type of `data`
unfoldable pub send_object : Settings → Fields → HiveLinkPlugin → Result (Unit {0}) × HiveLinkPlugin
unfolding get_item transmission cargo_of send
send_object s body g = elim (get_item "dest" (dict body)) [
  | err e ↦ (err e, g)
  | ok named ↦
      let dest = text_of s.show named in
      if dest == ""
      then (raise ErrorClass.value_error "OCCID/OUT requires dest", g)
      else if not g.datalink_started
      then (raise ErrorClass.runtime_error "HiveLink datalink is not started", g)
      else elim (cargo_of s body) [
        | err e ↦ (err e, g)
        | ok cargo ↦ send s (transmission s cargo dest body) g
      ]
]

-- `_send_outbound`
unfoldable pub send_outbound :
    Settings → Value → HiveLinkPlugin → Result (Unit {0}) × HiveLinkPlugin
unfolding get_item send_object
send_outbound s envelope g = elim (get_item "data" envelope >>= as_object) [
  | err e ↦ (err e, g)
  | ok body ↦ send_object s body g
]

-- What the link's thread has done since the turn before, and the clock.
pub record Turn : Type 0 where
  pub clock : ℕ
  pub arrived : List Inbound
  pub link_error : Option Error

-- A message that the main loop received.
unfoldable pub on_message :
    Settings
    → Result (Option (String × Value))
    → HiveLinkPlugin
    → Result (Unit {0}) × HiveLinkPlugin
unfolding send_outbound
on_message s (err e) g = (err e, g)
on_message s (ok none) g = (ok tt, g)
on_message s (ok (some (topic, payload))) g =
    if topic == s.out_topic then send_outbound s payload g else (ok tt, g)

-- A turn of the main loop of `run`.
unfoldable pub run_turn : Settings → Turn → HiveLinkPlugin → Result (Unit {0}) × HiveLinkPlugin
unfolding flush_inbound on_message recv_message
run_turn s t g = elim t.link_error [
  | some e ↦ (err e, record g { loop_error = some e })
  | none ↦
      let (flushed, g') =
        flush_inbound s t.clock (record g { inbound_queue = g.inbound_queue ++ t.arrived }) in
      let (received, runtime) = recv_message t.clock g'.runtime in
      elim flushed [
        | err e ↦ (err e, g')
        | ok _ ↦ on_message s received (record g' { runtime = runtime })
      ]
]

-- `except Exception` and `finally`, at the time `now`
unfoldable pub close_down : Settings → ℕ → Error → HiveLinkPlugin → HiveLinkPlugin
unfolding publish_error stop
close_down s now e g =
    let r = if is_exception e then publish_error (s.trace e) now g.runtime else g.runtime in
    record g { runtime = stop now r }

-- The main loop of `run`; `none` where it still runs behind the last turn.
unfoldable pub run : Settings → List Turn → HiveLinkPlugin → Option (Error × HiveLinkPlugin)
unfolding run_turn close_down
run s [] g = none
run s (t ∷ rest) g =
    let (result, g') = run_turn s t g in
    let more = run s rest g' in
    elim result [ ok _ ↦ more | err e ↦ some (e, close_down s t.clock e g') ]
