-- ===== src/Msp/Waits.antt =====
-- The waits of the adapter end.

use mpfc.Semantics.{ProcessOperation, process_name_of}
use mpfc.Prelude.{
  ℕ, ◌+◌, ◌≤◌, max, String, ◌≡◌, refl, inl, inr, Bool, true, false, ◌||◌, Option, List, [], ◌∷◌,
  arith, nat_equality, string_equality, pair_equality, ◌==◌, ltb, if◌then◌else◌, is_some,
  Bool-cases, Option-cases, any,
}
use mpfc.Exec.{Error, Result, ok, err}
use mpfc.Json.{Value}
use mpfc.Prelude.Int.{ℤ}
use mpfc.Occid.{CommandFamily}
use mpfc.Msp.{Settings, MspInterface, Tick, World, Act, Job, at_once, resume}
use mpfc.Msp.Channels.{set_throttle}
use mpfc.Msp.Flight.{
  see, watch, arm_for_flight, throttle_until, takeoff_timed_out, landing_timed_out, has_climbed,
  has_landed, climb, takeoff, descend, land_from, land,
}
use mpfc.Msp.Commands.{
  return_to_launch, begin_direct_control, start_process, control_process, end_direct_control,
  handle_process_control,
}
use mpfc.Msp.Loops.{by_family}

abbrev ends_at : ℕ → Tick → Bool
ends_at deadline t = t.stopped || ltb deadline t.clock

abbrev pub longest : Settings → ℕ
longest s = max s.takeoff_timeout s.landing_timeout

-- Some turn stops the adapter, or comes later than the longest timeout behind the first turn.
abbrev pub HasTime : Settings → List Tick → Type 0
HasTime s [] = ⊥
HasTime s (t ∷ ts) = any (ends_at (t.clock + longest s)) (t ∷ ts) ≡ true

abbrev pub Returns : Option (Result (Unit {0}) × World) → Type 0
Returns o = is_some o ≡ true

ends_at-le :
    (d d' : ℕ) (ts : List Tick) → d ≤ d' → any (ends_at d') ts ≡ true → any (ends_at d) ts ≡ true
ends_at-le d d' [] h k = k
ends_at-le d d' (t ∷ ts) h k = ground (arith, ends_at-le d d' ts h)

module _ (s : Settings) where
  resume-Returns :
      (r : Result (Unit {0})) (job : Job) (w : World) → Returns (job w) → Returns (resume job r w)
  resume-Returns (ok _) job w h = h
  resume-Returns (err e) job w h = refl

  watch-Returns :
      (arrived late : Bool) (finish : Act (Unit {0})) (e : Error) (more : Job) (w : World)
      → (late ≡ false → Returns (more w))
      → Returns (watch arrived late finish e more w)
  watch-Returns true late finish e more w h = refl
  watch-Returns false true finish e more w h = refl
  watch-Returns false false finish e more w h = h refl

  throttle_until-Returns :
      (throttle : ℕ) (arrived : Option ℤ → Bool) (finish : Act (Unit {0})) (deadline : ℕ)
      (e : Error) (ts : List Tick)
      → any (ends_at deadline) ts ≡ true
      → (g : MspInterface) → Returns (throttle_until s throttle arrived finish deadline e ts g)
  unfolding throttle_until
  throttle_until-Returns throttle arrived finish deadline e [] h g = absurd (ground (arith, h))
  throttle_until-Returns throttle arrived finish deadline e (t ∷ ts) h g =
      elim (Bool-cases t.stopped) [
        | inl stopped ↦ rw (stopped, throttle_until) refl
        | inr flying ↦
            let later : ltb deadline t.clock ≡ false → any (ends_at deadline) ts ≡ true =
              λ early. ground (arith, h, flying, early) in
            rw (flying, throttle_until)
              (resume-Returns (set_throttle s throttle (see t g)).0 _
                (record { node = (set_throttle s throttle (see t g)).1; script = ts })
                (watch-Returns (arrived t.altitude) (ltb deadline t.clock) finish e _ _ λ early.
                  throttle_until-Returns throttle arrived finish deadline e ts (later early)
                    (set_throttle s throttle (see t g)).1))
      ]

  climb-Returns :
      (target : ℤ) (ts : List Tick)
      → HasTime s ts
      → (g : MspInterface) → Returns (climb s target ts g)
  unfolding climb
  climb-Returns target [] h g = absurd h
  climb-Returns target (t ∷ ts) h g =
      throttle_until-Returns s.takeoff_throttle (has_climbed target) _ (t.clock + s.takeoff_timeout)
        takeoff_timed_out (t ∷ ts)
        (ends_at-le (t.clock + s.takeoff_timeout) (t.clock + longest s) (t ∷ ts) (omega arith) h) g

  takeoff-Returns : (w : World) → HasTime s w.script → Returns (takeoff s w)
  unfolding takeoff
  takeoff-Returns w h = elim (Option-cases w.node.takeoff_altitude_m) [
    | inl missing ↦ rw (missing, takeoff) refl
    | inr (target, found) ↦
        rw (found, takeoff)
          (resume-Returns (arm_for_flight s w.node).0 _
            (record w { node = (arm_for_flight s w.node).1 })
            (climb-Returns target w.script h (arm_for_flight s w.node).1))
  ]

  land_from-Returns :
      (ts : List Tick) → HasTime s ts → (g : MspInterface) → Returns (land_from s ts g)
  unfolding land_from descend
  land_from-Returns [] h g = absurd h
  land_from-Returns (t ∷ ts) h g =
      resume-Returns (arm_for_flight s g).0 _
        (record { node = (arm_for_flight s g).1; script = t ∷ ts })
        (throttle_until-Returns s.landing_throttle (has_landed s.in_air_alt_threshold) _
          (t.clock + s.landing_timeout) landing_timed_out (t ∷ ts)
          (ends_at-le (t.clock + s.landing_timeout) (t.clock + longest s) (t ∷ ts) (omega arith) h)
          (arm_for_flight s g).1)

  if-Returns :
      (b : Bool) (m n : Job) (w : World)
      → Returns (m w)
      → Returns (n w)
      → Returns ((if b then m else n) w)
  if-Returns true m n w h k = h
  if-Returns false m n w h k = k

  start_process-Returns :
      (name : String) (w : World) → HasTime s w.script → Returns (start_process s name w)
  unfolding start_process land
  start_process-Returns name w h = if-Returns (name == "takeoff") _ _ w (takeoff-Returns w h) (
      if-Returns (name == "land") _ _ w (land_from-Returns w.script h w.node) (
        if-Returns (name == "return_to_launch") (at_once (return_to_launch s)) _ w refl (
          if-Returns (name == "direct_control.manual_axis") (at_once (begin_direct_control s)) _ w
            refl refl)))

  control_process-Returns :
      (operation : ProcessOperation) (name : String) (w : World)
      → HasTime s w.script
      → Returns (control_process s operation name w)
  unfolding control_process
  control_process-Returns ProcessOperation.start name w h = start_process-Returns name w h
  control_process-Returns ProcessOperation.halt name w h =
      if-Returns (name == "direct_control") (at_once (end_direct_control s)) _ w refl refl
  control_process-Returns ProcessOperation.other_process name w h = refl

  pub by_family-Returns :
      (family : CommandFamily) (body : Value) (w : World)
      → HasTime s w.script
      → Returns (by_family s family body w)
  unfolding by_family handle_process_control
  by_family-Returns CommandFamily.state_change body w h = refl
  by_family-Returns CommandFamily.process_control body w h =
      control_process-Returns (s.readers.process_control body).operation
        (process_name_of (s.readers.process_control body)) w h
  by_family-Returns CommandFamily.configuration body w h = refl
  by_family-Returns CommandFamily.motion body w h = refl
  by_family-Returns CommandFamily.resource body w h = refl
  by_family-Returns CommandFamily.execution body w h = refl
  by_family-Returns (CommandFamily.other_command name) body w h = refl
