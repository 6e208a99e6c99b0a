-- ===== src/Scheduler/Validity.antt =====
-- The tables of a scheduler agree, so that `flush` never raises.
use mpfc.Prelude.{
  ℕ, ◌+◌, String, ◌≡◌, refl, ap, ◌⊎◌, inl, inr, Bool, ◌&&◌, none, some, List, [], ◌∷◌, arith,
  nat_equality, string_equality, pair_equality, ◌==◌, ltb, if◌then◌else◌, Bool-cases, keep, All,
}
use mpfc.Dict.{lookup}
use mpfc.Dict.Laws.{lookup-insert}
use mpfc.Exec.{Result, ok}
use mpfc.Json.{Value, build_envelope, as_payload}
use mpfc.Scheduler.{
  StateScheduler, discard, is_held, choose, cons_ok, mark_sent, collect, envelopes, flush,
}

-- A registered key has a topic, an interval and a time of its last publish.
pub record Registered (s : StateScheduler) (key : String) : Type 0 where
  pub topic : String
  pub topic_at : lookup key s.topics ≡ some topic
  pub interval : ℕ
  pub interval_at : lookup key s.intervals ≡ some interval
  pub last : ℕ
  pub last_at : lookup key s.last_sent ≡ some last

-- A key that can be published has a value besides.
pub record Publishable (s : StateScheduler) (key : String) : Type 0 where
  pub registered : Registered s key
  pub value : Value
  pub value_at : lookup key s.state ≡ some value

pub record IsValid (s : StateScheduler) : Type 0 where
  pub topics_known : (key : String) (t : String) → lookup key s.topics ≡ some t → Registered s key
  pub pending_known : All (Publishable s) s.pending

mark_sent-Registered :
    (now : ℕ) (key j : String) (s : StateScheduler)
    → Registered s j
    → Registered (mark_sent now key s) j
unfolding mark_sent
mark_sent-Registered now key j s r = record {
  topic = r.topic;
  topic_at = r.topic_at;
  interval = r.interval;
  interval_at = r.interval_at;
  last = if key == j then now else r.last;
  last_at = rw lookup-insert (ground (arith, r.last_at));
}

mark_sent-Publishable :
    (now : ℕ) (key j : String) (s : StateScheduler)
    → Publishable s j
    → Publishable (mark_sent now key s) j
mark_sent-Publishable now key j s p = record {
  registered = mark_sent-Registered now key j s p.registered;
  value = p.value;
  value_at = unfold mark_sent in p.value_at;
}

pub All-map :
    (P Q : String → Type 0) (ks : List String) → ((k : String) → P k → Q k) → All P ks → All Q ks
All-map P Q [] f h = tt
All-map P Q (k ∷ ks) f h = (f k h.0, All-map P Q ks f h.1)

All-keep :
    (P : String → Type 0) (t : String → Bool) (ks : List String) → All P ks → All P (keep t ks)
All-keep P t [] h = tt
All-keep P t (k ∷ ks) h = elim (Bool-cases (t k)) [
  | inl e ↦ rw (e, All, keep) (h.0, All-keep P t ks h.1)
  | inr e ↦ rw (e, All, keep) (All-keep P t ks h.1)
]

pub mark_sent-IsValid :
    (now : ℕ) (key : String) (s : StateScheduler) → IsValid s → IsValid (mark_sent now key s)
mark_sent-IsValid now key s v = record {
  topics_known =
      λ j t e. mark_sent-Registered now key j s (v.topics_known j t (unfold mark_sent in e));
  pending_known =
      unfold mark_sent discard in
      All-keep _ _ s.pending
        (All-map _ _ s.pending (λ j p. mark_sent-Publishable now key j s p) v.pending_known);
}

-- The decision on a registered key never raises.
pub is_held_total :
    (now : ℕ) (key : String) (s : StateScheduler)
    → Registered s key
    → (b : Bool) × (is_held now key s ≡ ok b)
unfolding is_held
is_held_total now key s r =
    (ltb 0 r.last && ltb now (r.last + r.interval), ground (arith, r.last_at, r.interval_at))

-- What a pass over keys that can be published leaves behind.
record Collected (r : Result (List (String × Value)) × StateScheduler) : Type 0 where
  chosen : List (String × Value)
  chosen_at : r.0 ≡ ok chosen
  valid : IsValid r.1
  registered : All (λ p. Registered r.1 p.0) chosen

collect-Registered :
    (now : ℕ) (ks : List String) (s : StateScheduler) (j : String)
    → Registered s j
    → Registered (collect now ks s).1 j
unfolding collect
collect-Registered now [] s j r = r
collect-Registered now (key ∷ rest) s j r = ground (
  arith,
  collect-Registered now rest s j r,
  collect-Registered now rest (mark_sent now key s) j (mark_sent-Registered now key j s r),
)

choose_total :
    (now : ℕ) (key : String) (s : StateScheduler)
    → Publishable s key
    → (choose now key s ≡ ok none) ⊎ ((v : Value) × (choose now key s ≡ ok (some v)))
unfolding choose is_held
choose_total now key s p =
    let r = p.registered in
    elim (Bool-cases (ltb 0 r.last && ltb now (r.last + r.interval))) [
      | inl held ↦ inl (ground (arith, r.last_at, r.interval_at))
      | inr due ↦ inr (p.value, ground (arith, r.last_at, r.interval_at, p.value_at))
    ]

pub Publishable-mark_sent-All :
    (now : ℕ) (key : String) (ks : List String) (s : StateScheduler)
    → All (Publishable s) ks
    → All (Publishable (mark_sent now key s)) ks
Publishable-mark_sent-All now key ks s =
    All-map (Publishable s) (Publishable (mark_sent now key s)) ks
      (λ j. mark_sent-Publishable now key j s)

collect_total :
    (now : ℕ) (ks : List String) (s : StateScheduler)
    → IsValid s
    → All (Publishable s) ks
    → Collected (collect now ks s)
unfolding collect
collect_total now [] s v h = record { chosen = []; chosen_at = refl; valid = v; registered = tt }
collect_total now (key ∷ rest) s v h = elim (choose_total now key s h.0) [
  | inl held ↦ rw (held, collect) (collect_total now rest s v h.1)
  | inr (value, due) ↦
      let s' = mark_sent now key s in
      let c =
        collect_total now rest s' (mark_sent-IsValid now key s v)
          (Publishable-mark_sent-All now key rest s h.1) in
      rw (due, collect)
        (record {
          chosen = (key, value) ∷ c.chosen;
          chosen_at = ap (cons_ok (key, value)) c.chosen_at;
          valid = c.valid;
          registered = (
            collect-Registered now rest s' key (mark_sent-Registered now key key s h.0.registered),
            c.registered,
          );
        })
]

envelopes_total :
    (wall : ℕ) (ps : List (String × Value)) (s : StateScheduler)
    → All (λ p. Registered s p.0) ps
    → (out : List (String × Value)) × (envelopes wall ps s ≡ ok out)
unfolding envelopes
envelopes_total wall [] s h = ([], refl)
envelopes_total wall ((key, value) ∷ rest) s h =
    let (out, e) = envelopes_total wall rest s h.1 in
    (
      (h.0.topic, build_envelope s.client_id h.0.topic wall (as_payload key value)) ∷ out,
      rw (h.0.topic_at, e) refl,
    )

-- The tables of a scheduler agree when `flush` begins: then it raises nothing, and they agree when
-- it ends.
pub flush_total :
    (now wall : ℕ) (s : StateScheduler)
    → IsValid s
    → ((out : List (String × Value)) × ((flush now wall s).0 ≡ ok out))
      × IsValid (flush now wall s).1
unfolding flush
flush_total now wall s v =
    let c = collect_total now s.pending s v v.pending_known in
    let (out, e) = envelopes_total wall c.chosen (collect now s.pending s).1 c.registered in
    ((out, rw c.chosen_at e), c.valid)
