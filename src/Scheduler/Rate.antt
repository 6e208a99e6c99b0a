-- ===== src/Scheduler/Rate.antt =====
-- The rate limit of `flush`: how far apart the publishes of one key are.
use mathlib.Core.Path.{subst}
use mpfc.Prelude.{
  ℕ, ◌+◌, ◌≤◌, String, ◌≡◌, refl, ◌⊎◌, inl, inr, true, false, Option, none, some, List, [], ◌∷◌,
  ◌++◌, map, arith, nat_equality, string_equality, pair_equality, ◌==◌, beq→eq, if◌then◌else◌,
  Bool-cases,
}
use mpfc.Dict.{lookup}
use mpfc.Dict.Laws.{lookup-insert}
use mpfc.Exec.{Error, Result, ok, err}
use mpfc.Json.{Value}
use mpfc.Scheduler.{StateScheduler, update, is_held, choose, cons_ok, mark_sent, collect}

-- The calls that drive a scheduler.
pub data Op : Type 0 where
  set : String → Value → Op
  tick : ℕ → Op

-- The keys that one pass publishes, with its time.
abbrev pub log : ℕ → Result (List (String × Value)) → List (ℕ × String)
log now (ok ps) = map (λ p. (now, p.0)) ps
log now (err e) = []

abbrev pub or_same : StateScheduler → Result StateScheduler → StateScheduler
or_same s (ok s') = s'
or_same s (err e) = s

-- What a sequence of calls publishes, in order. An update that raises changes nothing.
unfoldable pub run : List Op → StateScheduler → List (ℕ × String)
run [] s = []
run (set key value ∷ ops) s = run ops (or_same s (update key value s))
run (tick now ∷ ops) s = let (chosen, s') = collect now s.pending s in log now chosen ++ run ops s'

-- The times at which a key is published.
abbrev pub times : String → List (ℕ × String) → List ℕ
times k [] = []
times k ((t, j) ∷ l) = if j == k then t ∷ times k l else times k l

-- Each time is the first ever, or at least `interval` behind the one before.
abbrev pub SpacedBy : ℕ → ℕ → List ℕ → Type 0
SpacedBy interval last [] = Unit
SpacedBy interval last (t ∷ ts) = ((last ≡ 0) ⊎ (last + interval ≤ t)) × SpacedBy interval t ts

times-append :
    (k : String) (xs ys : List (ℕ × String)) → times k (xs ++ ys) ≡ times k xs ++ times k ys
times-append k [] ys = refl
times-append k ((t, j) ∷ xs) ys = ground (arith, times-append k xs ys)

choose_due :
    (now : ℕ) (k : String) (s : StateScheduler) (v : Value) {last interval : ℕ}
    → lookup k s.last_sent ≡ some last
    → lookup k s.intervals ≡ some interval
    → choose now k s ≡ ok (some v)
    → (last ≡ 0) ⊎ (last + interval ≤ now)
unfolding choose is_held
choose_due now k s v l i h = ground arith

chosen :
    (r : Result (Option Value))
    → (((e : Error) × (r ≡ err e)) ⊎ (r ≡ ok none)) ⊎ ((v : Value) × (r ≡ ok (some v)))
chosen (err e) = inl (inl (e, refl))
chosen (ok none) = inl (inr refl)
chosen (ok (some v)) = inr (v, refl)

module _ (k : String) (interval : ℕ) where
  -- The clock of `k` stands at `last`.
  record Stands (last : ℕ) (s : StateScheduler) : Type 0 where
    last_at : lookup k s.last_sent ≡ some last
    interval_at : lookup k s.intervals ≡ some interval

  -- What is published by a pass leaves room for what is spaced from where the pass ends.
  record Leads (last : ℕ) (l : List (ℕ × String)) (s : StateScheduler) : Type 0 where
    next : ℕ
    stands : Stands next s
    spaced : (ts : List ℕ) → SpacedBy interval next ts → SpacedBy interval last (times k l ++ ts)

  -- Room behind a later time is room behind an earlier one.
  SpacedBy-weaken :
      {last next : ℕ} (ts : List ℕ)
      → (last ≡ 0) ⊎ (last + interval ≤ next)
      → SpacedBy interval next ts
      → SpacedBy interval last ts
  SpacedBy-weaken [] due h = tt
  SpacedBy-weaken (t ∷ ts) due h = (omega arith, h.1)

  Leads-cons_self :
      (now last : ℕ) (j : String) (v : Value) (r : Result (List (String × Value)))
      (s : StateScheduler)
      → (j == k) ≡ true
      → (last ≡ 0) ⊎ (last + interval ≤ now)
      → Leads now (log now r) s
      → Leads last (log now (cons_ok (j, v) r)) s
  Leads-cons_self now last j v (ok ps) s same due h = record {
    next = h.next;
    stands = h.stands;
    spaced = λ ts sp. rw same (due, h.spaced ts sp);
  }
  Leads-cons_self now last j v (err e) s same due h = record {
    next = h.next;
    stands = h.stands;
    spaced = λ ts sp. SpacedBy-weaken ts due (h.spaced ts sp);
  }

  Leads-cons_ne :
      (now last : ℕ) (j : String) (v : Value) (r : Result (List (String × Value)))
      (s : StateScheduler)
      → (j == k) ≡ false
      → Leads last (log now r) s
      → Leads last (log now (cons_ok (j, v) r)) s
  Leads-cons_ne now last j v (ok ps) s other h = record {
    next = h.next;
    stands = h.stands;
    spaced = λ ts sp. rw other (h.spaced ts sp);
  }
  Leads-cons_ne now last j v (err e) s other h = h

  Stands-mark_self :
      (now last : ℕ) (j : String) (s : StateScheduler)
      → (j == k) ≡ true
      → Stands last s
      → Stands now (mark_sent now j s)
  unfolding mark_sent
  Stands-mark_self now last j s same st = record {
    last_at = rw (lookup-insert, same);
    interval_at = st.interval_at;
  }

  Stands-mark_ne :
      (now last : ℕ) (j : String) (s : StateScheduler)
      → (j == k) ≡ false
      → Stands last s
      → Stands last (mark_sent now j s)
  unfolding mark_sent
  Stands-mark_ne now last j s other st = record {
    last_at = rw (lookup-insert, other) st.last_at;
    interval_at = st.interval_at;
  }

  Leads-collect :
      (now : ℕ) (ks : List String) (s : StateScheduler) (last : ℕ)
      → Stands last s
      → Leads last (log now (collect now ks s).0) (collect now ks s).1
  unfolding collect
  Leads-collect now [] s last st = record { next = last; stands = st; spaced = λ ts h. h }
  Leads-collect now (j ∷ ks) s last st = elim (chosen (choose now j s)) [
    | inl (inl (e, f)) ↦ rw (f, collect) (record { next = last; stands = st; spaced = λ ts h. h })
    | inl (inr f) ↦ rw (f, collect) (Leads-collect now ks s last st)
    | inr (v, f) ↦ elim (Bool-cases (j == k)) [
      | inl same ↦
          rw (f, collect)
            (Leads-cons_self now last j v (collect now ks (mark_sent now j s)).0
              (collect now ks (mark_sent now j s)).1 same
              (choose_due now k s v st.last_at st.interval_at
                (subst (λ i. choose now i s ≡ ok (some v)) (beq→eq j k same) f))
              (Leads-collect now ks (mark_sent now j s) now
                (Stands-mark_self now last j s same st)))
      | inr other ↦
          rw (f, collect)
            (Leads-cons_ne now last j v (collect now ks (mark_sent now j s)).0
              (collect now ks (mark_sent now j s)).1 other
              (Leads-collect now ks (mark_sent now j s) last
                (Stands-mark_ne now last j s other st)))
    ]
  ]

  Stands-update :
      (last : ℕ) (key : String) (value : Value) (s : StateScheduler)
      → Stands last s
      → Stands last (or_same s (update key value s))
  unfolding update
  Stands-update last key value s st = ground arith

  SpacedBy-run :
      (ops : List Op) (s : StateScheduler) (last : ℕ)
      → Stands last s
      → SpacedBy interval last (times k (run ops s))
  unfolding run
  SpacedBy-run [] s last st = tt
  SpacedBy-run (set key value ∷ ops) s last st =
      SpacedBy-run ops (or_same s (update key value s)) last (Stands-update last key value s st)
  SpacedBy-run (tick now ∷ ops) s last st =
      let h = Leads-collect now s.pending s last st in
      let (r, s') = collect now s.pending s in
      rw (times-append k (log now r) (run ops s'))
        (h.spaced (times k (run ops s')) (SpacedBy-run ops s' h.next h.stands))

-- Whatever is updated and flushed, at whatever times: two publishes of one key that follow one
-- another are at least its interval apart, and so is the first from the last one before, if there
-- was one (a time of 0 says that there was none).
pub rate_limited :
    (ops : List Op) (s : StateScheduler) (k : String) (last interval : ℕ)
    → lookup k s.last_sent ≡ some last
    → lookup k s.intervals ≡ some interval
    → SpacedBy interval last (times k (run ops s))
rate_limited ops s k last interval l i =
    SpacedBy-run k interval ops s last (record { last_at = l; interval_at = i })
