-- ===== src/Router/Pump.antt =====
-- What one message changes in a router.
use mpfc.Prelude.{
  ℕ, String, ◌≡◌, refl, ap, ◌∙◌, false, some, arith, nat_equality, string_equality, pair_equality,
  ◌==◌, beq_refl, if◌then◌else◌,
}
use mpfc.Dict.{lookup, insert}
use mpfc.Dict.Laws.{lookup-insert}
use mpfc.Exec.{ok}
use mpfc.Json.{
  Value, null, bool, int, float, str, list, dict, end, field, get_item, as_payload, last_part,
  build_envelope,
}
use mpfc.Router.{BusRouter, Message, unwrap, log_state, dispatch}

-- A value that is no dictionary of one field, or of a field with another name, goes through as it is.
abbrev pub IsPlain : String → Value → Type 0
IsPlain key (dict (field f v end)) = ((f == last_part key) ≡ false) × ((f == "value") ≡ false)
IsPlain key _ = Unit

-- A plain value that is published under a state key comes out of the router as it was: the wrapping
-- by `StateScheduler` or `_publish_event` and the unwrapping by `pump_once` undo one another.
pub unwrap-as_payload :
    (key : String) (v : Value) → IsPlain key v → unwrap key (as_payload key v) ≡ v
unfolding unwrap as_payload
unwrap-as_payload key (dict end) h = refl
unwrap-as_payload key (dict (field f v end)) h = rw (h.0, h.1)
unwrap-as_payload key (dict (field f v (field g w d))) h = refl
unwrap-as_payload key null h = rw (beq_refl (last_part key))
unwrap-as_payload key (bool b) h = rw (beq_refl (last_part key))
unwrap-as_payload key (int n) h = rw (beq_refl (last_part key))
unwrap-as_payload key (float x) h = rw (beq_refl (last_part key))
unwrap-as_payload key (str s) h = rw (beq_refl (last_part key))
unwrap-as_payload key (list xs) h = rw (beq_refl (last_part key))

-- A dictionary whose one field is called `value` does not: the router keeps the field alone.
pub unwrap-as_payload_value :
    (key : String) (v : Value) → unwrap key (as_payload key (dict (field "value" v end))) ≡ v
unfolding unwrap as_payload
unwrap-as_payload_value key v = ground arith

log_state-keeps :
    (key : String) (now : ℕ) (r : BusRouter)
    → let r' = log_state key now r in
      (r'.state ≡ r.state)
      × (r'.responses ≡ r.responses)
      × (r'.attrs ≡ r.attrs)
      × (r'.request_counter ≡ r.request_counter)
unfolding log_state
log_state-keeps key now r = ground arith

dispatch-build_envelope :
    (now wall : ℕ) (sender topic key : String) (payload : Value) (r : BusRouter)
    → lookup topic r.state_topics ≡ some key
    → dispatch now (topic, build_envelope sender topic wall payload) r ≡ (
      ok (some (topic, build_envelope sender topic wall payload)),
      log_state key now (record r { state = insert key (unwrap key payload) r.state }),
    )
unfolding dispatch build_envelope get_item
dispatch-build_envelope now wall sender topic key payload r known = ground arith

-- A state message with an envelope of `build_envelope` stores what the payload stands for under the
-- key of its topic, leaves every other key, every response and every object alone, and is handed on
-- to the caller.
pub dispatch-state :
    (now wall : ℕ) (sender topic key : String) (payload : Value) (r : BusRouter)
    → lookup topic r.state_topics ≡ some key
    → let m : Message = (topic, build_envelope sender topic wall payload) in
      let (result, r') = dispatch now m r in
      (result ≡ ok (some m))
      × ((j : String)
          → lookup j r'.state ≡ (if key == j then some (unwrap key payload) else lookup j r.state))
      × (r'.responses ≡ r.responses)
      × (r'.attrs ≡ r.attrs)
      × (r'.request_counter ≡ r.request_counter)
dispatch-state now wall sender topic key payload r known =
    let r' = record r { state = insert key (unwrap key payload) r.state } in
    let kept = log_state-keeps key now r' in
    rw (dispatch-build_envelope now wall sender topic key payload r known) (
      refl,
      λ j. ap (lookup j) kept.0 ∙ lookup-insert key j (unwrap key payload) r.state,
      kept.1,
      kept.2,
      kept.3,
    )
