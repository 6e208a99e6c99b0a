-- ===== src/Scheduler.antt =====
-- lib/state_scheduler.py: the rate-limited publishing of state. Times are clock ticks; each method
-- runs under the lock, so that it is one step.
use mathlib.Core.Option
pub mod Validity
pub mod Updates
pub mod Rate
pub mod Tests
use mpfc.Prelude.{
  ℕ, zero, suc, ◌+◌, ◌-◌, ◌*◌, ◌/◌, ◌%◌, ◌≤◌, ◌<◌, min, max, String, ◌≡◌, refl, sym, ap, ◌∙◌, ◌≢◌,
  ◌↔◌, ◌⊎◌, inl, inr, Bool, true, false, not, ◌&&◌, ◌||◌, Option, none, some, List, [], ◌∷◌, ◌++◌,
  map, arith, eq_iff, Equality, nat_equality, string_equality, pair_equality, ◌==◌, beq_refl,
  beq-sym, beq→eq, ne→beq, ltb, leb, if◌then◌else◌, is_some, ltb→lt, lt→ltb, ge→ltb, ltb→ge,
  Bool-cases, Option-cases, length, length-append, any, all, keep, All, All-append,
}
use mpfc.Dict.{Dict, lookup, contains, insert, remove, keys}
use mpfc.Exec.{
  ErrorClass, Error, error, is_data_error, is_exception, Result, ok, err, ◌>>=◌, ◌>>◌, raise,
  raise_if, or_raise,
}
use mpfc.Json.{Value, as_payload, build_envelope}

-- `pending` is a set; the order of the list is the order in which Python walks it.
pub record StateScheduler : Type 0 where
  pub client_id : String
  pub topics : Dict String String
  pub intervals : Dict String ℕ
  pub last_sent : Dict String ℕ
  pub state : Dict String Value
  pub pending : List String

-- An entry of the configuration: key, topic and interval.
pub record Entry : Type 0 where
  pub key : String
  pub topic : String
  pub interval_s : ℕ

-- `pending.add(key)` and `pending.discard(key)`
unfoldable pub add : String → List String → List String
add key s = if any (λ k. k == key) s then s else s ++ key ∷ []

unfoldable pub discard : String → List String → List String
discard key s = keep (λ k. not (k == key)) s

abbrev pub member : String → List String → Bool
member key s = any (λ k. k == key) s

-- The body of the loop in `__init__`.
unfoldable pub add_entry : Entry → StateScheduler → Result StateScheduler
add_entry e s = do
  raise_if (e.topic == "") ErrorClass.runtime_error "missing topic for state key"
  raise_if (e.interval_s == 0) ErrorClass.runtime_error "invalid interval for state key"
  ok (record s {
    topics = insert e.key e.topic s.topics;
    intervals = insert e.key e.interval_s s.intervals;
    last_sent = insert e.key 0 s.last_sent;
  })

add_entries : List Entry → StateScheduler → Result StateScheduler
add_entries [] s = ok s
add_entries (e ∷ rest) s = add_entry e s >>= add_entries rest

unfoldable pub init : String → List Entry → Result StateScheduler
unfolding add_entry add_entries
init client_id entries = add_entries entries (record {
  client_id = client_id;
  topics = [];
  intervals = [];
  last_sent = [];
  state = [];
  pending = [];
})

unfoldable pub update : String → Value → StateScheduler → Result StateScheduler
unfolding add
update key value s =
    if not (contains key s.topics)
    then raise ErrorClass.runtime_error "unknown state key"
    else ok (record s { state = insert key value s.state; pending = add key s.pending })

pub snapshot : StateScheduler → Dict String Value
snapshot s = s.state

abbrev within_interval : ℕ → String → ℕ → StateScheduler → Result Bool
within_interval now key last s = do
  interval ← or_raise (lookup key s.intervals) ErrorClass.key_error key
  ok (ltb now (last + interval))

-- `last > 0.0 and now - last < self.intervals[key]`
unfoldable pub is_held : ℕ → String → StateScheduler → Result Bool
is_held now key s = do
  last ← or_raise (lookup key s.last_sent) ErrorClass.key_error key
  if ltb 0 last then within_interval now key last s else ok false

unfoldable pub mark_sent : ℕ → String → StateScheduler → StateScheduler
unfolding discard
mark_sent now key s = record s {
  last_sent = insert key now s.last_sent;
  pending = discard key s.pending;
}

abbrev cons_ok : String × Value → Result (List (String × Value)) → Result (List (String × Value))
cons_ok p (ok ps) = ok (p ∷ ps)
cons_ok p (err e) = err e

-- What the loop of `flush` does with one key: `none` where it goes on with the next.
unfoldable pub choose : ℕ → String → StateScheduler → Result (Option Value)
choose now key s = do
  held ← is_held now key s
  if held then ok none else or_raise (Option.map some (lookup key s.state)) ErrorClass.key_error key

-- The loop of `flush` under the lock, over the keys that were pending when it began.
unfoldable pub collect :
    ℕ → List String → StateScheduler → Result (List (String × Value)) × StateScheduler
collect now [] s = (ok [], s)
collect now (key ∷ rest) s = elim (choose now key s) [
  | err e ↦ (err e, s)
  | ok none ↦ collect now rest s
  | ok (some value) ↦
      let (chosen, s') = collect now rest (mark_sent now key s) in (cons_ok (key, value) chosen, s')
]

-- The loop of `flush` behind the lock: the messages that it publishes.
unfoldable pub envelopes :
    ℕ → List (String × Value) → StateScheduler → Result (List (String × Value))
envelopes wall [] s = ok []
envelopes wall ((key, value) ∷ rest) s = do
  topic ← or_raise (lookup key s.topics) ErrorClass.key_error key
  sent ← envelopes wall rest s
  ok ((topic, build_envelope s.client_id topic wall (as_payload key value)) ∷ sent)

unfoldable pub flush : ℕ → ℕ → StateScheduler → Result (List (String × Value)) × StateScheduler
flush now wall s =
    let (chosen, s') = collect now s.pending s in
    ((do to_publish ← chosen; envelopes wall to_publish s'), s')
