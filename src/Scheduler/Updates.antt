-- ===== src/Scheduler/Updates.antt =====
-- `update` and `__init__` keep the tables of a scheduler in agreement.
use mpfc.Prelude.{
  String, ◌≡◌, refl, ◌⊎◌, inl, inr, true, none, some, List, [], ◌∷◌, ◌++◌, arith, nat_equality,
  string_equality, pair_equality, ◌==◌, beq_refl, if◌then◌else◌, Bool-cases, Option-cases, any, All,
  All-append,
}
use mathlib.Core.Path.{subst}
use mpfc.Dict.{lookup, insert}
use mpfc.Dict.Laws.{lookup-insert, lookup-insert_self}
use mpfc.Exec.{ErrorClass, ok, raise, >>=-eq-ok, ok-injective}
use mpfc.Json.{Value}
use mpfc.Scheduler.{StateScheduler, Entry, add, member, add_entry, add_entries, init, update}
use mpfc.Scheduler.Validity.{Registered, Publishable, IsValid, All-map}

update-Publishable :
    (key j : String) (value : Value) (s : StateScheduler)
    → Publishable s j
    → Publishable (record s { state = insert key value s.state; pending = add key s.pending }) j
update-Publishable key j value s p = record {
  registered = record {
    topic = p.registered.topic;
    topic_at = p.registered.topic_at;
    interval = p.registered.interval;
    interval_at = p.registered.interval_at;
    last = p.registered.last;
    last_at = p.registered.last_at;
  };
  value = if key == j then value else p.value;
  value_at = rw lookup-insert (ground (arith, p.value_at));
}

All-add :
    (P : String → Type 0) (key : String) (ks : List String) → P key → All P ks → All P (add key ks)
unfolding add
All-add P key ks p h = elim (Bool-cases (any (λ k. k == key) ks)) [
  | inl old ↦ rw old h
  | inr new ↦ rw new (All-append P ks (key ∷ []) h (p, tt))
]

any-append_last : (key : String) (ks : List String) → any (λ k. k == key) (ks ++ key ∷ []) ≡ true
any-append_last key [] = ground (arith, beq_refl key)
any-append_last key (k ∷ ks) = ground (arith, any-append_last key ks)

member-add : (key : String) (ks : List String) → member key (add key ks) ≡ true
unfolding add
member-add key ks = elim (Bool-cases (any (λ k. k == key) ks)) [
  | inl old ↦ rw old old
  | inr new ↦ rw new (any-append_last key ks)
]

-- `update` of a registered key.
abbrev stored : String → Value → StateScheduler → StateScheduler
stored key value s = record s { state = insert key value s.state; pending = add key s.pending }

stored-IsValid :
    (key : String) (value : Value) (s : StateScheduler) (t : String)
    → lookup key s.topics ≡ some t
    → IsValid s
    → IsValid (stored key value s)
stored-IsValid key value s t e v = record {
  topics_known = λ j u f. carry (v.topics_known j u f);
  pending_known =
      All-add (Publishable (stored key value s)) key s.pending
        (record {
          registered = carry (v.topics_known key t e);
          value = value;
          value_at = lookup-insert_self key value s.state;
        })
        (All-map (Publishable s) (Publishable (stored key value s)) s.pending
          (λ j. update-Publishable key j value s) v.pending_known);
}
  where
    carry : {j : String} → Registered s j → Registered (stored key value s) j
    carry r = record {
      topic = r.topic;
      topic_at = r.topic_at;
      interval = r.interval;
      interval_at = r.interval_at;
      last = r.last;
      last_at = r.last_at;
    }

-- `update` in a scheduler whose tables agree: a key with no topic is refused with a RuntimeError;
-- any other is accepted, holds the value, is pending, and the tables agree still.
pub update_total :
    (key : String) (value : Value) (s : StateScheduler)
    → IsValid s
    → ((lookup key s.topics ≡ none)
        × (update key value s ≡ raise ErrorClass.runtime_error "unknown state key"))
      ⊎ ((s' : StateScheduler) × (update key value s ≡ ok s')
          × IsValid s'
          × (lookup key s'.state ≡ some value)
          × (member key s'.pending ≡ true))
unfolding update
update_total key value s v = elim (Option-cases (lookup key s.topics)) [
  | inl e ↦ inl (e, rw e)
  | inr (t, e) ↦ inr (
    stored key value s,
    rw e,
    stored-IsValid key value s t e v,
    lookup-insert_self key value s.state,
    member-add key s.pending,
  )
]

-- What a registration writes.
abbrev entered : Entry → StateScheduler → StateScheduler
entered e s = record s {
  topics = insert e.key e.topic s.topics;
  intervals = insert e.key e.interval_s s.intervals;
  last_sent = insert e.key 0 s.last_sent;
}

add_entry-entered : (e : Entry) (s s' : StateScheduler) → add_entry e s ≡ ok s' → entered e s ≡ s'
unfolding add_entry
add_entry-entered e s s' h = ground arith

entered-Registered :
    (e : Entry) (s : StateScheduler) (j : String) (t : String)
    → IsValid s
    → lookup j (insert e.key e.topic s.topics) ≡ some t
    → Registered (entered e s) j
entered-Registered e s j t v h = elim (Bool-cases (e.key == j)) [
  | inl same ↦ record {
    topic = e.topic;
    topic_at = rw (lookup-insert, same);
    interval = e.interval_s;
    interval_at = rw (lookup-insert, same);
    last = 0;
    last_at = rw (lookup-insert, same);
  }
  | inr other ↦
      let r =
        v.topics_known j t (ground (arith, other, h, lookup-insert e.key j e.topic s.topics)) in
      record {
        topic = r.topic;
        topic_at = rw (lookup-insert, other) r.topic_at;
        interval = r.interval;
        interval_at = rw (lookup-insert, other) r.interval_at;
        last = r.last;
        last_at = rw (lookup-insert, other) r.last_at;
      }
]

-- The tables agree and nothing waits.
record IsFresh (s : StateScheduler) : Type 0 where
  valid : IsValid s
  empty : s.pending ≡ []

entered-IsFresh : (e : Entry) (s : StateScheduler) → IsFresh s → IsFresh (entered e s)
entered-IsFresh e s f = record {
  valid = record {
    topics_known = λ j t h. entered-Registered e s j t f.valid h;
    pending_known = rw f.empty tt;
  };
  empty = f.empty;
}

add_entries-IsFresh :
    (es : List Entry) (s s' : StateScheduler) → IsFresh s → add_entries es s ≡ ok s' → IsFresh s'
unfolding add_entries
add_entries-IsFresh [] s s' f h = subst IsFresh (ok-injective h) f
add_entries-IsFresh (e ∷ es) s s' f h =
    let (m, first, rest) = >>=-eq-ok (add_entry e s) (add_entries es) h in
    add_entries-IsFresh es m s'
      (subst IsFresh (add_entry-entered e s m first) (entered-IsFresh e s f)) rest

-- A scheduler that its constructor returns has tables that agree, and nothing is pending.
pub init-IsValid :
    (client_id : String) (es : List Entry) (s : StateScheduler)
    → init client_id es ≡ ok s
    → IsValid s × (s.pending ≡ [])
unfolding init lookup
init-IsValid client_id es s h = let f = add_entries-IsFresh es _ s fresh h in (f.valid, f.empty)
  where
    fresh : IsFresh (record {
      client_id = client_id;
      topics = [];
      intervals = [];
      last_sent = [];
      state = [];
      pending = [];
    })
    fresh = record {
      valid = record { topics_known = λ j t e. cc; pending_known = tt };
      empty = refl;
    }
