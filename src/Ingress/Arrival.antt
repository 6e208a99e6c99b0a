-- ===== src/Ingress/Arrival.antt =====
-- The loop behind the command of a move: what it decides, and that it ends.
use mathlib.Core.Path.{subst}
use mpfc.Prelude.{
  ℕ, ◌+◌, ◌<◌, max, ◌≡◌, refl, ap, ◌∙◌, ◌≢◌, ◌⊎◌, inl, inr, Bool, true, false, Option, none, some,
  List, [], ◌∷◌, ◌++◌, arith, nat_equality, string_equality, pair_equality, ltb, Bool-cases,
  Option-cases,
}
use mpfc.Exec.{ErrorClass, Error, error, Result, ok, err, Result-cases}
use mpfc.Ingress.{
  GlobalPosition, LocationState, RemoteExecution, UavCommand, Settings, ExecutionIngress, send,
}
use mpfc.Ingress.Vehicle.{
  Turn, World, Move, ◌>>=◌, lift, change, pump_with_ingress, positioned, until,
}
use mpfc.Ingress.Execute.{execute_move}
use mpfc.Ingress.Track.{
  Metric, Metrics, Observation, arrival_metrics, has_arrived, success_report, running_report,
  report_progress, is_arrived, arrival_reports, observe, track,
}
use mpfc.Ingress.Reports.{decisions, decisions-send, decisions-decide, decisions-pump}
use mpfc.Ingress.Silent.{
  IsSilent, Kept, lift-IsSilent, peek-IsSilent, execute-IsSilent, wait_for_location-IsSilent,
  prepare-IsSilent,
}

-- The vehicle is inside the arrival radius and the altitude tolerance of the destination.
abbrev pub IsThere : Metric → Settings → GlobalPosition → LocationState → Type 0
IsThere distance_m s d here =
    (m : Metrics) × (arrival_metrics distance_m here d ≡ ok m) × (has_arrived s m ≡ true)

observe-IsThere :
    (distance_m : Metric) (s : Settings) (d : GlobalPosition) (full : Metrics)
    (location : Option LocationState) (here : LocationState)
    → observe distance_m s d full location ≡ ok (Observation.arrived here)
    → IsThere distance_m s d here
unfolding observe
observe-IsThere distance_m s d full location here h = elim (Option-cases (positioned location)) [
  | inl nowhere ↦ absurd (ground (arith, h, nowhere))
  | inr (at, f) ↦ elim (Result-cases (arrival_metrics distance_m at d)) [
    | inl (e, k) ↦ absurd (ground (arith, h, f, k))
    | inr (m, k) ↦ elim (Bool-cases (has_arrived s m)) [
      | inl there ↦ subst (IsThere distance_m s d) (ground (arith, h, f, k, there)) (m, k, there)
      | inr away ↦ absurd (ground (arith, h, f, k, away))
    ]
  ]
]

module _ (distance_m : Metric) (s : Settings) (r : RemoteExecution) (d : GlobalPosition) where
  -- A move that ends without an error has reported success, once and where the vehicle was there; one
  -- that raises has decided nothing.
  abbrev pub Moved : ExecutionIngress → Option (Result (Unit {0}) × World) → Type 0
  Moved g none = Unit
  Moved g (some (err e, w)) = decisions w.ingress ≡ decisions g
  Moved g (some (ok _, w)) =
      (here : LocationState) × IsThere distance_m s d here
      × (decisions w.ingress ≡ decisions g ++ success_report r here ∷ [])

  Moved-trans :
      (g g' : ExecutionIngress) (o : Option (Result (Unit {0}) × World))
      → decisions g' ≡ decisions g
      → Moved g' o
      → Moved g o
  Moved-trans g g' none h k = tt
  Moved-trans g g' (some (err e, w)) h k = k ∙ h
  Moved-trans g g' (some (ok _, w)) h (here, there, k) =
      (here, there, k ∙ ap (λ ms. ms ++ success_report r here ∷ []) h)

  bind-Moved :
      {A : Type 0} (m : Move A) (f : A → Move (Unit {0}))
      → IsSilent m
      → ((a : A) (w : World) → Moved w.ingress (f a w))
      → (w : World) → Moved w.ingress ((m >>= f) w)
  bind-Moved {A = A} m f hm hf w = go (m w) (hm w)
    where
      go :
          (o : Option (Result A × World))
          → Kept w.ingress o
          → Moved w.ingress (elim o as (λ _. Option (Result (Unit {0}) × World)) [
            | none ↦ none
            | some (ok a, w') ↦ f a w'
            | some (err e, w') ↦ some (err e, w')
          ])
      go none h = tt
      go (some (ok a, w')) h = Moved-trans w.ingress w'.ingress (f a w') h (hf a w')
      go (some (err e, w')) h = h

  decisions-report_progress :
      (seen : Observation) (now last : ℕ) (g : ExecutionIngress)
      → decisions (report_progress s r seen now last g).1 ≡ decisions g
  decisions-report_progress (Observation.under_way here progress) now last g =
      ground (arith, decisions-send (running_report r here progress) g refl)
  decisions-report_progress Observation.unknown now last g = refl
  decisions-report_progress (Observation.arrived here) now last g = refl

  -- What comes behind the reports of a turn, `more` being the turns behind it.
  turn-Moved :
      (late : Bool) (pumped : Result (Unit {0})) (g reported g' : ExecutionIngress) (ts : List Turn)
      (e : Error) (more : Option (Result (Unit {0}) × World))
      → decisions reported ≡ decisions g
      → decisions g' ≡ decisions reported
      → Moved g' more
      → Moved g (elim late as (λ _. Option (Result (Unit {0}) × World)) [
        | true ↦ some (err e, record { ingress = reported; script = ts })
        | false ↦ elim pumped [
          | err e ↦ some (err e, record { ingress = g'; script = ts })
          | ok _ ↦ more
        ]
      ])
  turn-Moved true pumped g reported g' ts e more h k l = h
  turn-Moved false (err _) g reported g' ts e more h k l = k ∙ h
  turn-Moved false (ok _) g reported g' ts e more h k l = Moved-trans g g' more (k ∙ h) l

  track-Moved :
      (full : Metrics) (deadline last : ℕ) (ts : List Turn) (g : ExecutionIngress)
      → Moved g (track distance_m s r d full deadline last ts g)
  unfolding track
  track-Moved full deadline last [] g = tt
  track-Moved full deadline last (t ∷ ts) g =
      elim (Result-cases (observe distance_m s d full t.location)) [
        | inl (e, f) ↦ rw (f, track) refl
        | inr (seen, f) ↦
            rw (f, track) (go (λ last' g'. track-Moved full deadline last' ts g') seen f)
      ]
    where
      behind :
          ((last' : ℕ) (g' : ExecutionIngress)
            → Moved g' (track distance_m s r d full deadline last' ts g'))
          → (seen : Observation)
          → Moved g (
              let (last', reported) = report_progress s r seen t.clock last g in
              let (pumped, g') = pump_with_ingress s t.received reported in
              elim (ltb deadline t.clock) as (λ _. Option (Result (Unit {0}) × World)) [
                | true ↦ some (
                  err (
                      error ErrorClass.runtime_error "TaskManeuver/MOVE timed out without arrival"),
                  record { ingress = reported; script = ts },
                )
                | false ↦ elim pumped [
                  | err e ↦ some (err e, record { ingress = g'; script = ts })
                  | ok _ ↦ track distance_m s r d full deadline last' ts g'
                ]
              ])
      behind more seen =
          let reported = report_progress s r seen t.clock last g in
          let pumped = pump_with_ingress s t.received reported.1 in
          turn-Moved (ltb deadline t.clock) pumped.0 g reported.1 pumped.1 ts _ _
            (decisions-report_progress seen t.clock last g) (decisions-pump s t.received reported.1)
            (more reported.0 pumped.1)

      go :
          ((last' : ℕ) (g' : ExecutionIngress)
            → Moved g' (track distance_m s r d full deadline last' ts g'))
          → (seen : Observation) → observe distance_m s d full t.location ≡ ok seen
          → Moved g (elim (is_arrived seen) as (λ _. Option (Result (Unit {0}) × World)) [
            | true ↦ some (ok tt, record { ingress = arrival_reports r seen g; script = ts })
            | false ↦
                let (last', reported) = report_progress s r seen t.clock last g in
                let (pumped, g') = pump_with_ingress s t.received reported in
                elim (ltb deadline t.clock) [
                  | true ↦ some (
                    err (
                        error ErrorClass.runtime_error
                          "TaskManeuver/MOVE timed out without arrival"),
                    record { ingress = reported; script = ts },
                  )
                  | false ↦ elim pumped [
                    | err e ↦ some (err e, record { ingress = g'; script = ts })
                    | ok _ ↦ track distance_m s r d full deadline last' ts g'
                  ]
                ]
          ])
      go more (Observation.arrived here) f = (
        here,
        observe-IsThere distance_m s d full t.location here f,
        decisions-decide (success_report r here) g refl,
      )
      go more Observation.unknown f = behind more Observation.unknown
      go more (Observation.under_way here progress) f =
          behind more (Observation.under_way here progress)

  pub execute_move-Moved : (w : World) → Moved w.ingress (execute_move distance_m s r d w)
  unfolding execute_move
  execute_move-Moved = bind-Moved _ _ (wait_for_location-IsSilent s) λ _.
      bind-Moved _ _ (prepare-IsSilent s d) λ _.
        bind-Moved _ _ (wait_for_location-IsSilent s) λ current.
          bind-Moved (lift (arrival_metrics distance_m current d)) _
            (lift-IsSilent (arrival_metrics distance_m current d))
            λ initial. bind-Moved _ _ (execute-IsSilent s (UavCommand.go_to d)) λ _.
              bind-Moved (change (send (running_report r current 0))) _
                (λ w. decisions-send (running_report r current 0) w.ingress refl)
                λ _. bind-Moved _ _ peek-IsSilent λ first w.
                  track-Moved
                    (
                      max (max initial.0 s.arrival_radius) 10,
                      max (max initial.1 s.altitude_tolerance) 10,
                    )
                    (first.clock + s.execution_timeout) 0 w.script w.ingress

-- A turn of the script is behind the deadline.
abbrev pub Overdue : ℕ → List Turn → Type 0
Overdue deadline [] = ⊥
Overdue deadline (t ∷ ts) = (deadline < t.clock) ⊎ Overdue deadline ts

-- The loop of a move ends, with success or an error, by the first turn behind its deadline.
pub track_ends :
    (distance_m : Metric) (s : Settings) (r : RemoteExecution) (d : GlobalPosition) (full : Metrics)
    (deadline last : ℕ) (ts : List Turn) (g : ExecutionIngress)
    → Overdue deadline ts
    → track distance_m s r d full deadline last ts g ≢ none
unfolding track
track_ends distance_m s r d full deadline last [] g h = absurd h
track_ends distance_m s r d full deadline last (t ∷ ts) g h =
    elim (Result-cases (observe distance_m s d full t.location)) [
      | inl (e, f) ↦ ground (arith, f)
      | inr (seen, f) ↦ ground (
        arith,
        f,
        track_ends distance_m s r d full deadline (report_progress s r seen t.clock last g).0 ts
            (pump_with_ingress s t.received (report_progress s r seen t.clock last g).1).1,
      )
    ]

-- A wait for the vehicle ends by the first turn behind its deadline.
pub until_ends :
    {A : Type 0} (s : Settings) (check : Turn → Option (Result A)) (deadline : ℕ)
    (timed_out : Error) (ts : List Turn) (g : ExecutionIngress)
    → Overdue deadline ts
    → until s check deadline timed_out ts g ≢ none
unfolding until
until_ends s check deadline timed_out [] g h = absurd h
until_ends s check deadline timed_out (t ∷ ts) g h =
    ground (arith, until_ends s check deadline timed_out ts (pump_with_ingress s t.received g).1)
