-- ===== src/Supervisor/Ending.antt =====
-- When the supervisor ends, and what it calls a failure.
use mpfc.Prelude.{
  ℕ, ◌+◌, ◌<◌, ◌≡◌, refl, ◌≢◌, ◌↔◌, ◌⊎◌, inl, inr, Bool, true, false, none, some, List, [], ◌∷◌,
  arith, nat_equality, string_equality, pair_equality, Bool-cases,
}
use mpfc.Supervisor.{
  Proc, Turn, Supervisor, all_procs, dead_among, is_completion, notice_dead, turn, ends, run,
}
use mpfc.Supervisor.Invariant.{turn-IsValid}
use mpfc.Supervisor.Handlers.{IsValid}

-- A turn asks for the processes after the deadline.
abbrev pub Overdue : ℕ → List Turn → Type 0
Overdue deadline [] = ⊥
Overdue deadline (t ∷ ts) = (deadline < t.clock_after) ⊎ Overdue deadline ts

-- Once a shutdown has begun, the loop ends by the first turn that is more than 5 s later.
pub run_ends :
    (resident : Bool) (began : ℕ) (ts : List Turn) (s : Supervisor)
    → IsValid s
    → s.shutdown_started_at ≡ some began
    → Overdue (began + 5000) ts
    → run resident ts s ≢ none
unfolding run ends
run_ends resident began [] s v started h = absurd h
run_ends resident began (t ∷ ts) s v started h =
    let (v', keeps) = turn-IsValid resident t s v in
    let started' = keeps.first_start began started in
    let stops = v'.started_stops began started' in
    ground (arith, started', stops, run_ends resident began ts (turn resident t s) v' started')

-- On a quiet bus, components that have ended begin a shutdown, and it is a failure unless the node runs
-- one mission, its core has ended with code 0 and everything else is still alive.
pub notice_dead_fails_iff :
    (resident : Bool) (t : Turn) (s : Supervisor)
    → s.shutdown_requested ≡ false
    → s.failure_reason ≡ none
    → dead_among (all_procs t.seen) ≢ []
    → ((notice_dead resident t s).shutdown_requested ≡ true)
      × (((notice_dead resident t s).failure_reason ≡ none) ↔ (is_completion resident t ≡ true))
unfolding notice_dead
notice_dead_fails_iff resident t s running clean some_dead = go (dead_among (all_procs t.seen)) refl
  where
    go :
        (dead : List Proc)
        → dead_among (all_procs t.seen) ≡ dead
        → ((notice_dead resident t s).shutdown_requested ≡ true)
          × (((notice_dead resident t s).failure_reason ≡ none) ↔ (is_completion resident t ≡ true))
    go [] h = absurd (some_dead h)
    go (p ∷ ps) h = elim (Bool-cases (is_completion resident t)) [
      | inl complete ↦ ground (arith, h, running, clean, complete)
      | inr failed ↦ ground (arith, h, running, clean, failed)
    ]
