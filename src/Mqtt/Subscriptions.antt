-- ===== src/Mqtt/Subscriptions.antt =====
-- What is asked for while there is no connection is subscribed when there is one.
use mpfc.Prelude.{
  String, ◌≡◌, refl, sym, ap, ◌∙◌, inl, inr, Bool, true, none, some, List, [], ◌∷◌, ◌++◌, arith,
  nat_equality, string_equality, pair_equality, ◌==◌, beq_refl, beq→eq, Bool-cases, any,
}
use mpfc.Exec.{Result, ok}
use mpfc.Mqtt.{
  MqttBusClient, full_topic, add_topic, subscribe_topic, resubscribe, on_connect, subscribe,
}

abbrev pub among : String → List String → Bool
among t ts = any (λ u. u == t) ts

among-append_left :
    (t : String) (xs ys : List String) → among t xs ≡ true → among t (xs ++ ys) ≡ true
among-append_left t [] ys h = cc
among-append_left t (x ∷ xs) ys h = ground (arith, among-append_left t xs ys)

among-append_last : (t : String) (xs : List String) → among t (xs ++ t ∷ []) ≡ true
among-append_last t [] = ground (arith, beq_refl t)
among-append_last t (x ∷ xs) = ground (arith, among-append_last t xs)

pub among-add_topic : (t : String) (ts : List String) → among t (add_topic t ts) ≡ true
unfolding add_topic
among-add_topic t ts = elim (Bool-cases (any (λ u. u == t) ts)) [
  | inl old ↦ rw old old
  | inr new ↦ rw new (among-append_last t ts)
]

full_topic-prefix :
    (c d : MqttBusClient) (t : String)
    → c.topic_prefix ≡ d.topic_prefix
    → full_topic c t ≡ full_topic d t
unfolding full_topic
full_topic-prefix c d t e = rw e

module _ (takes : String → Bool) (willing : (t : String) → takes t ≡ true) where
  subscribe_topic-willing :
      (topic : String) (c : MqttBusClient)
      → subscribe_topic takes topic c
        ≡ (ok tt, record c { held = c.held ++ full_topic c topic ∷ [] })
  unfolding subscribe_topic
  subscribe_topic-willing topic c = rw (willing (full_topic c topic))

  -- A client that has taken the subscriptions of a list holds them, and has raised nothing.
  record Took (topics : List String) (c d : MqttBusClient) : Type 0 where
    prefix : d.topic_prefix ≡ c.topic_prefix
    clean : d.background_error ≡ c.background_error
    linked : d.connected ≡ c.connected
    kept : (t : String) → among t c.held ≡ true → among t d.held ≡ true
    took : (t : String) → among t topics ≡ true → among (full_topic c t) d.held ≡ true

  Took-resubscribe :
      (topics : List String) (c : MqttBusClient) → Took topics c (resubscribe takes topics c)
  unfolding resubscribe
  Took-resubscribe [] c = record {
    prefix = refl;
    clean = refl;
    linked = refl;
    kept = λ t h. h;
    took = λ t h. cc;
  }
  Took-resubscribe (topic ∷ rest) c =
      let e = subscribe_topic-willing topic c in
      let c' = (subscribe_topic takes topic c).1 in
      let ih = Took-resubscribe rest c' in
      let p : c'.topic_prefix ≡ c.topic_prefix = ap (λ r. r.1.topic_prefix) e in
      let q : c'.held ≡ c.held ++ full_topic c topic ∷ [] = ap (λ r. r.1.held) e in
      rw (ap (λ r. r.0) e, resubscribe)
        (record {
          prefix = ih.prefix ∙ p;
          clean = ih.clean ∙ ap (λ r. r.1.background_error) e;
          linked = ih.linked ∙ ap (λ r. r.1.connected) e;
          kept = λ t h. ih.kept t (rw q (among-append_left t c.held (full_topic c topic ∷ []) h));
          took = λ t h. elim (Bool-cases (topic == t)) [
            | inl same ↦
                ih.kept (full_topic c t)
                  (rw (q, ← beq→eq topic t same) (among-append_last (full_topic c topic) c.held))
            | inr other ↦ rw (← full_topic-prefix c' c t p) (ih.took t (ground (arith, h, other)))
          ];
        })

among-add_topic_old :
    (t topic : String) (ts : List String) → among t ts ≡ true → among t (add_topic topic ts) ≡ true
unfolding add_topic
among-add_topic_old t topic ts h = elim (Bool-cases (any (λ u. u == topic) ts)) [
  | inl old ↦ rw old h
  | inr new ↦ rw new (among-append_left t ts (topic ∷ []) h)
]

record Asked (topic : String) (c : MqttBusClient) (r : Result (Unit {0}) × MqttBusClient)
    : Type 0 where
  done : r.0 ≡ ok tt
  clean : r.1.background_error ≡ none
  prefix : r.1.topic_prefix ≡ c.topic_prefix
  asked : r.1.subscriptions ≡ add_topic topic c.subscriptions

subscribe-Asked :
    (takes : String → Bool) (topic : String) (c : MqttBusClient)
    → ((t : String) → takes t ≡ true)
    → c.background_error ≡ none
    → Asked topic c (subscribe takes topic c)
unfolding subscribe subscribe_topic
subscribe-Asked takes topic c willing clean = elim (Bool-cases c.connected) [
  | inl on ↦
      rw (clean, on, willing) (record { done = refl; clean = refl; prefix = refl; asked = refl })
  | inr off ↦ rw (clean, off) (record { done = refl; clean = refl; prefix = refl; asked = refl })
]

-- A topic that is subscribed at any time, connected or not, is held by the broker's client once a
-- connection is accepted, under the full topic; so are the topics asked for before.
pub on_connect_subscribes :
    (takes : String → Bool) (topic : String) (c : MqttBusClient)
    → ((t : String) → takes t ≡ true)
    → c.background_error ≡ none
    → let c' = on_connect takes 0 (subscribe takes topic c).1 in
      ((subscribe takes topic c).0 ≡ ok tt)
      × (c'.connected ≡ true)
      × (c'.background_error ≡ none)
      × (among (full_topic c topic) c'.held ≡ true)
      × ((t : String) → among t c.subscriptions ≡ true → among (full_topic c t) c'.held ≡ true)
unfolding on_connect
on_connect_subscribes takes topic c willing clean =
    let a = subscribe-Asked takes topic c willing clean in
    let c' = (subscribe takes topic c).1 in
    let t =
      Took-resubscribe takes willing c'.subscriptions
        (record c' { connect_rc = some 0; connected = true }) in
    (
      a.done,
      t.linked,
      t.clean ∙ a.clean,
      rw
          (full_topic-prefix c (record c' { connect_rc = some 0; connected = true }) topic
            (sym a.prefix))
          (t.took topic (rw a.asked (among-add_topic topic c.subscriptions))),
      λ u h.
          rw
            (full_topic-prefix c (record c' { connect_rc = some 0; connected = true }) u
              (sym a.prefix))
            (t.took u (rw a.asked (among-add_topic_old u topic c.subscriptions h))),
    )
