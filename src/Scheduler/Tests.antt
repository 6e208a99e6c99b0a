-- ===== src/Scheduler/Tests.antt =====
-- A scheduler of one key.
use mpfc.Prelude.{String, ◌≡◌, refl, List, [], ◌∷◌, nat_equality, string_equality, pair_equality}
use mpfc.Dict.{lookup, insert}
use mpfc.Exec.{ok}
use mpfc.Json.{Value, str}
use mpfc.Scheduler.{StateScheduler, Entry, init, add_entry, update, flush, member}
use mpfc.Scheduler.Validity.{IsValid, Registered, flush_total}
use mpfc.Scheduler.Updates.{init-IsValid}
use mpfc.Scheduler.Rate.{Op, rate_limited, SpacedBy, times, run}

abbrev entries : List Entry
entries = record { key = "location"; topic = "uav/STATE/location"; interval_s = 2 } ∷ []

abbrev fresh : StateScheduler
fresh = record {
  client_id = "uav";
  topics = ("location", "uav/STATE/location") ∷ [];
  intervals = ("location", 2) ∷ [];
  last_sent = ("location", 0) ∷ [];
  state = [];
  pending = [];
}

fresh-IsValid : IsValid fresh
unfolding init insert
fresh-IsValid = (init-IsValid "uav" entries fresh refl).0

-- The location has been updated.
abbrev loaded : StateScheduler
loaded = record fresh { state = ("location", str "here") ∷ []; pending = "location" ∷ [] }

carry : (key : String) → Registered fresh key → Registered loaded key
carry key r = record {
  topic = r.topic;
  topic_at = r.topic_at;
  interval = r.interval;
  interval_at = r.interval_at;
  last = r.last;
  last_at = r.last_at;
}

loaded-IsValid : IsValid loaded
unfolding lookup
loaded-IsValid = record {
  topics_known = λ key t h. carry key (fresh-IsValid.topics_known key t h);
  pending_known = (
    record {
      registered =
          carry "location" (fresh-IsValid.topics_known "location" "uav/STATE/location" refl);
      value = str "here";
      value_at = refl;
    },
    tt,
  );
}

flush_total_example :
    ((out : List (String × Value)) × ((flush 5 5 loaded).0 ≡ ok out)) × IsValid (flush 5 5 loaded).1
flush_total_example = flush_total 5 5 loaded loaded-IsValid

abbrev calls : List Op
calls = Op.tick 5 ∷ Op.set "location" (str "there") ∷ Op.tick 6 ∷ Op.tick 8 ∷ []

rate_limited_example : SpacedBy 2 0 (times "location" (run calls loaded))
unfolding lookup
rate_limited_example = rate_limited calls loaded "location" 0 2 refl refl

-- The call at 6 is held back.
calls-times : times "location" (run calls loaded) ≡ 5 ∷ 8 ∷ []
unfolding run mpfc.Scheduler.collect mpfc.Scheduler.choose mpfc.Scheduler.is_held lookup update
    mpfc.Scheduler.mark_sent insert
calls-times = refl
