-- ===== src/Supervisor/Invariant.antt =====
-- What the supervisor keeps through its turns.
use mpfc.Prelude.{
  ◌≤◌, ℕ, ◌+◌, String, ◌≡◌, refl, ◌∙◌, inl, inr, Bool, true, false, Option, none, some, List, [],
  ◌∷◌, arith, nat_equality, string_equality, pair_equality, ◌==◌, if◌then◌else◌, Option-cases,
}
use mpfc.Text.{◌<>◌}
use mpfc.Supervisor.{
  Proc, Turn, Supervisor, first_reason, request_shutdown, ends_with, names_of, all_procs,
  dead_among, is_completion, hear, notice_dead, begin_shutdown, turn, ends, run, Exit,
  announce_error,
}
use mpfc.Supervisor.Handlers.{
  started_count, IsValid, Keeps, Keeps-trans, IsSound, if-IsSound, choose-IsSound, same-IsSound,
  request-IsSound, report-IsSound, fail-IsSound, start-IsSound,
}

hear-IsValid : (t : Turn) (s : Supervisor) → IsValid s → IsSound s (hear t s)
unfolding hear
hear-IsValid t s v =
    if-IsSound s (request_shutdown s) _ t.terminate_requested (request-IsSound s v) (go t.topic)
  where
    go :
        (o : Option String)
        → IsSound s (elim o as (λ _. Supervisor) [
          | none ↦ s
          | some topic ↦
              if topic == "CONTROL/SHUTDOWN"
              then request_shutdown s
              else if ends_with "/ERROR" topic
              then request_shutdown (record s {
                failure_reason =
                    first_reason s.failure_reason
                      ("runtime component reported error topic=" <> topic);
              })
              else s
        ])
    go none = same-IsSound s v
    go (some topic) = if-IsSound s _ _ (topic == "CONTROL/SHUTDOWN") (request-IsSound s v) (
        if-IsSound s _ _ (ends_with "/ERROR" topic)
          (report-IsSound s ("runtime component reported error topic=" <> topic) v)
          (same-IsSound s v))

notice_dead-IsValid :
    (resident : Bool) (t : Turn) (s : Supervisor) → IsValid s → IsSound s (notice_dead resident t s)
unfolding notice_dead
notice_dead-IsValid resident t s v =
    choose-IsSound s s _ s.shutdown_requested (λ _. same-IsSound s v)
      (λ running. go running (dead_among (all_procs t.seen)))
  where
    go :
        s.shutdown_requested ≡ false
        → (dead : List Proc)
        → IsSound s (elim dead as (λ _. Supervisor) [
          | [] ↦ s
          | p ∷ ps ↦
              if is_completion resident t
              then request_shutdown s
              else request_shutdown (record s {
                failure_reason = some ("unexpected runtime component exit: " <> names_of (p ∷ ps));
              })
        ])
    go running [] = same-IsSound s v
    go running (p ∷ ps) =
        if-IsSound s _ _ (is_completion resident t) (request-IsSound s v)
          (fail-IsSound s ("unexpected runtime component exit: " <> names_of (p ∷ ps)) v running)

begin_shutdown-IsValid : (t : Turn) (s : Supervisor) → IsValid s → IsSound s (begin_shutdown t s)
unfolding begin_shutdown
begin_shutdown-IsValid t s v = go s.shutdown_started_at refl
  where
    go :
        (o : Option ℕ)
        → s.shutdown_started_at ≡ o
        → IsSound s (elim o as (λ _. Supervisor) [
          | some began ↦ s
          | none ↦
              if s.shutdown_requested
              then record s { shutdown_started_at = some t.clock; announced = s.announced + 1 }
              else s
        ])
    go (some began) h = same-IsSound s v
    go none h =
        choose-IsSound s _ s s.shutdown_requested (λ stopping. start-IsSound s t.clock v stopping h)
          (λ _. same-IsSound s v)

begin_shutdown-started :
    (t : Turn) (s : Supervisor)
    → (begin_shutdown t s).shutdown_requested ≡ true
    → started_count (begin_shutdown t s).shutdown_started_at ≡ 1
unfolding begin_shutdown
begin_shutdown-started t s h = elim (Option-cases s.shutdown_started_at) [
  | inl idle ↦ ground (arith, h, idle)
  | inr (began, f) ↦ ground (arith, f)
]

ends-stopping :
    (t : Turn) (s : Supervisor) (ps : List Proc) → ends t s ≡ some ps → s.shutdown_requested ≡ true
unfolding ends
ends-stopping t s ps h = ground arith

pub turn-IsValid :
    (resident : Bool) (t : Turn) (s : Supervisor)
    → IsValid s
    → IsValid (turn resident t s) × Keeps s (turn resident t s)
unfolding turn IsSound
turn-IsValid resident t s v =
    let a = hear-IsValid t s v in
    let b = notice_dead-IsValid resident t (hear t s) a.0 in
    let c = begin_shutdown-IsValid t (notice_dead resident t (hear t s)) b.0 in
    (c.0, Keeps-trans _ _ _ a.1 (Keeps-trans _ _ _ b.1 c.1))

-- A break comes behind exactly one announcement.
abbrev pub IsAnnounced : Supervisor → Exit → Type 0
IsAnnounced s (Exit.broke terminated) = s.announced ≡ 1
IsAnnounced s (Exit.raised e) = s.announced ≤ 1

abbrev pub EndsValid : Supervisor → Option (Supervisor × Exit) → Type 0
EndsValid s none = Unit
EndsValid s (some (s', exit)) = IsValid s' × Keeps s s' × IsAnnounced s' exit

EndsValid-trans :
    (s s' : Supervisor) (o : Option (Supervisor × Exit))
    → Keeps s s'
    → EndsValid s' o
    → EndsValid s o
EndsValid-trans s s' none k h = tt
EndsValid-trans s s' (some (s'', exit)) k (v, k', once) = (v, Keeps-trans s s' s'' k k', once)

at_most_once : (s : Supervisor) → IsValid s → s.announced ≤ 1
at_most_once s v = go s.shutdown_started_at v.announced_once
  where
    go : (o : Option ℕ) → s.announced ≡ started_count o → s.announced ≤ 1
    go none h = omega (arith, h)
    go (some began) h = omega (arith, h)

-- From a valid state, when the loop ends by a break, the shutdown has been published exactly once, and when
-- it ends by an error of `receive` or of that publish, at most once; a shutdown that was requested, the
-- time at which it began and the first failure are never changed on the way, and the state is valid again.
pub run-EndsValid :
    (resident : Bool) (ts : List Turn) (s : Supervisor)
    → IsValid s
    → EndsValid s (run resident ts s)
unfolding run turn IsSound
run-EndsValid resident [] s v = tt
run-EndsValid resident (t ∷ ts) s v =
    let (v', kept) = turn-IsValid resident t s v in
    let before = notice_dead resident t (hear t s) in
    elim (Option-cases t.receive_error) [
      | inr (e, f) ↦ rw (f, run) (v, (same-IsSound s v).1, at_most_once s v)
      | inl heard ↦ elim (Option-cases (announce_error t before)) [
        | inr (e, f) ↦ rw (heard, run) (rw (f, run) (v', kept, at_most_once (turn resident t s) v'))
        | inl published ↦ elim (Option-cases (ends t (turn resident t s))) [
          | inl goes_on ↦
              rw (heard, run)
                (rw (published, run)
                  (rw (goes_on, run)
                    (EndsValid-trans s (turn resident t s) (run resident ts (turn resident t s))
                      kept (run-EndsValid resident ts (turn resident t s) v'))))
          | inr (terminated, f) ↦
              rw (heard, run)
                (rw (published, run)
                  (rw (f, run)
                    (
                      v',
                      kept,
                      v'.announced_once
                          ∙ begin_shutdown-started t before
                              (ends-stopping t (turn resident t s) terminated f),
                    )))
        ]
      ]
    ]
