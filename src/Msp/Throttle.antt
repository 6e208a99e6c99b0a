-- ===== src/Msp/Throttle.antt =====
-- The calls of a loop that holds a throttle.
use mathlib.Core.List.{append_assoc}
use mpfc.Prelude.{
  ℕ, zero, suc, ◌≡◌, refl, ◌∙◌, ◌⊎◌, inl, inr, Bool, true, false, Option, none, some, List, [], ◌∷◌,
  ◌++◌, nat_equality, string_equality, pair_equality, ltb, Bool-cases,
}
use mpfc.Exec.{Error, Result, ok, err}
use mpfc.Prelude.Int.{ℤ}
use mpfc.Msp.{Call, set_rc_channels, Settings, MspInterface, Tick, World, Act, Job, resume, tell}
use mpfc.Msp.Channels.{set_throttle}
use mpfc.Msp.Flight.{see, watch, throttle_until}

abbrev pub replicate {ℓ} : {A : Type ℓ} → ℕ → A → List A
replicate zero x = []
replicate (suc n) x = x ∷ replicate n x

abbrev pub throttle_call : ℕ → Call
throttle_call value = set_rc_channels (("throttle", value) ∷ [])

replicate_snoc {ℓ} : {A : Type ℓ} (xs ys : List A) (x : A) → ((xs ++ x ∷ []) ++ ys) ≡ xs ++ x ∷ ys
replicate_snoc xs ys x = append_assoc xs (x ∷ []) ys

module _ (s : Settings) (throttle : ℕ) (arrived : Option ℤ → Bool) (finish : Act (Unit {0})) where
  -- A loop that ended without an error was stopped, or it set its throttle some times, saw the altitude
  -- that it waited for, and finished.
  abbrev pub Flown : MspInterface → Option (Result (Unit {0}) × World) → Type 0
  Flown g none = Unit
  Flown g (some (err e, w)) = Unit
  Flown g (some (ok _, w)) =
      (w.node.stop_event ≡ true)
      ⊎ ((k : ℕ) × (g' : MspInterface) × (arrived g'.latest_altitude ≡ true)
          × (g'.sent ≡ g.sent ++ replicate (suc k) (throttle_call throttle))
          × (finish g' ≡ (ok tt, w.node)))

  Flown-earlier :
      (g g' : MspInterface)
      → g'.sent ≡ g.sent ++ throttle_call throttle ∷ []
      → (o : Option (Result (Unit {0}) × World)) → Flown g' o
      → Flown g o
  Flown-earlier g g' e none h = tt
  Flown-earlier g g' e (some (err _, w)) h = tt
  Flown-earlier g g' e (some (ok _, w)) (inl stopped) = inl stopped
  Flown-earlier g g' e (some (ok _, w)) (inr (k, g'', there, calls, done)) =
      inr (suc k, g'', there, calls ∙ rw e (replicate_snoc g.sent _ (throttle_call throttle)), done)

  watch-Flown :
      (late : Bool) (e : Error) (more : Job) (g g' : MspInterface) (ts : List Tick)
      → g'.sent ≡ g.sent ++ throttle_call throttle ∷ []
      → Flown g' (more (record { node = g'; script = ts }))
      → Flown g (
          watch (arrived g'.latest_altitude) late finish e more (record { node = g'; script = ts }))
  watch-Flown late e more g g' ts calls h = go (arrived g'.latest_altitude) late refl
    where
      finished :
          (r : Result (Unit {0})) (h : MspInterface)
          → finish g' ≡ (r, h)
          → arrived g'.latest_altitude ≡ true
          → Flown g (some (r, record { node = h; script = ts }))
      finished (ok _) h f there = inr (0, g', there, calls, f)
      finished (err _) h f there = tt

      go :
          (there behind : Bool)
          → arrived g'.latest_altitude ≡ there
          → Flown g (watch there behind finish e more (record { node = g'; script = ts }))
      go true behind f = finished (finish g').0 (finish g').1 refl f
      go false true f = tt
      go false false f = Flown-earlier g g' calls _ h

  resume-Flown :
      (r : Result (Unit {0})) (job : Job) (g : MspInterface) (w : World)
      → Flown g (job w)
      → Flown g (resume job r w)
  resume-Flown (ok _) job g w h = h
  resume-Flown (err _) job g w h = tt

  pub throttle_until-Flown :
      (deadline : ℕ) (e : Error) (ts : List Tick) (g : MspInterface)
      → Flown g (throttle_until s throttle arrived finish deadline e ts g)
  unfolding throttle_until set_throttle tell
  throttle_until-Flown deadline e [] g = tt
  throttle_until-Flown deadline e (t ∷ ts) g =
      let ih : (g' : MspInterface)
          → Flown g' (throttle_until s throttle arrived finish deadline e ts g') =
        throttle_until-Flown deadline e ts in
      elim (Bool-cases t.stopped) [
        | inl stopped ↦ rw (stopped, throttle_until) (inl stopped)
        | inr flying ↦
            rw (flying, throttle_until)
              (let g' = (set_throttle s throttle (see t g)).1 in
                resume-Flown (set_throttle s throttle (see t g)).0 _ g
                  (record { node = g'; script = ts })
                  (watch-Flown (ltb deadline t.clock) e _ g g' ts refl (ih g')))
      ]
