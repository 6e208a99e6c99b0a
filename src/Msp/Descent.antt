-- ===== src/Msp/Descent.antt =====
-- What a landing that ends without an error has done.

use mathlib.Core.Path.{subst}
use mpfc.Prelude.{
  ℕ, suc, ◌+◌, String, ◌≡◌, refl, sym, ap, ◌∙◌, ◌⊎◌, inl, inr, true, false, Option, none, some,
  List, [], ◌∷◌, ◌++◌, arith, nat_equality, string_equality, pair_equality, Option-cases,
}
use mpfc.Dict.{lookup}
use mpfc.Exec.{Result, ok, err}
use mpfc.Prelude.Int.{ℤ, ltb_ℤ}
use mpfc.Msp.{
  ModeChannel, Call, set_rc_channels, Settings, MspInterface, Tick, World, resume, go_on, tell,
}
use mpfc.Msp.Channels.{clear_mode, set_throttle, arm_mode_name}
use mpfc.Msp.Flight.{
  arm_for_flight, touch_down, landing_timed_out, has_landed, descend, land_from, land,
}
use mpfc.Msp.Climb.{arming_calls, arm_for_flight-sent}
use mpfc.Msp.Throttle.{replicate, throttle_call, Flown, throttle_until-Flown}

has_landed-le :
    (threshold : ℤ) (altitude : Option ℤ)
    → has_landed threshold altitude ≡ true
    → (a : ℤ) × (altitude ≡ some a) × (ltb_ℤ threshold a ≡ false)
unfolding has_landed
has_landed-le threshold none h = absurd (ground (arith, h))
has_landed-le threshold (some a) h = (a, refl, ground (arith, h))

module _ (s : Settings) where
  -- The call that switches a mode off.
  abbrev pub off_call : ModeChannel → Call
  off_call mode = set_rc_channels ((mode.channel, s.rx_min) ∷ [])

  clear_mode_done :
      (name : String) (g h : MspInterface)
      → clear_mode s name g ≡ (ok tt, h)
      → (mode : ModeChannel) × (lookup name s.mode_channels ≡ some mode)
        × (record g { sent = g.sent ++ off_call mode ∷ [] } ≡ h)
  unfolding clear_mode tell
  clear_mode_done name g h done = elim (Option-cases (lookup name s.mode_channels)) [
    | inl missing ↦ absurd (ground (arith, done, missing))
    | inr (mode, found) ↦
        let told : (
          s.answer g.sent (off_call mode),
          record g { sent = g.sent ++ off_call mode ∷ [] },
        )
            ≡ (ok tt, h) =
          rw (found, clear_mode) at done in
        (mode, found, ap (λ (p : Result (Unit {0}) × MspInterface). p.1) told)
  ]

  touch_down_done :
      (g h : MspInterface)
      → touch_down s g ≡ (ok tt, h)
      → (mode : ModeChannel) × (lookup arm_mode_name s.mode_channels ≡ some mode)
        × (record g { sent = (g.sent ++ throttle_call s.rx_min ∷ []) ++ off_call mode ∷ [] } ≡ h)
  unfolding touch_down set_throttle tell
  touch_down_done g h done = go (s.answer g.sent (throttle_call s.rx_min)) done
    where
      go :
          (r : Result (Unit {0}))
          → go_on
              (λ _. clear_mode s arm_mode_name)
              r
              (record g { sent = g.sent ++ throttle_call s.rx_min ∷ [] })
            ≡ (ok tt, h)
          → (mode : ModeChannel) × (lookup arm_mode_name s.mode_channels ≡ some mode)
            × (record g { sent = (g.sent ++ throttle_call s.rx_min ∷ []) ++ off_call mode ∷ [] }
                ≡ h)
      go (ok _) k = clear_mode_done arm_mode_name _ h k
      go (err e) k = absurd (ground (arith, k))

  -- What a landing that ended without an error has done.
  abbrev Landed : MspInterface → Option (Result (Unit {0}) × World) → Type 0
  Landed g none = Unit
  Landed g (some (err e, w)) = Unit
  Landed g (some (ok _, w)) =
      (w.node.stop_event ≡ true)
      ⊎ ((a : ℤ) × (k : ℕ) × (mode : ModeChannel) × (w.node.latest_altitude ≡ some a)
          × (ltb_ℤ s.in_air_alt_threshold a ≡ false)
          × (lookup arm_mode_name s.mode_channels ≡ some mode)
          × (w.node.sent
              ≡ g.sent
                ++ arming_calls s
                ++ replicate (suc k) (throttle_call s.landing_throttle)
                ++ throttle_call s.rx_min ∷ []
                ++ off_call mode ∷ []))

  descend-Landed :
      (g g' : MspInterface)
      → g'.sent ≡ g.sent ++ arming_calls s
      → (o : Option (Result (Unit {0}) × World))
      → Flown s s.landing_throttle (has_landed s.in_air_alt_threshold) (touch_down s) g' o
      → Landed g o
  descend-Landed g g' armed none h = tt
  descend-Landed g g' armed (some (err _, w)) h = tt
  descend-Landed g g' armed (some (ok _, w)) (inl stopped) = inl stopped
  descend-Landed g g' armed (some (ok _, w)) (inr (k, g'', there, calls, done)) =
      let (a, seen, low) = has_landed-le s.in_air_alt_threshold g''.latest_altitude there in
      let (mode, found, left) = touch_down_done g'' w.node done in
      inr (
        a,
        k,
        mode,
        sym (ap (λ (n : MspInterface). n.latest_altitude) left) ∙ seen,
        low,
        found,
        sym (ap (λ (n : MspInterface). n.sent) left)
            ∙ ap (λ (xs : List Call). (xs ++ throttle_call s.rx_min ∷ []) ++ off_call mode ∷ [])
                (calls
                  ∙ ap (λ xs. xs ++ replicate (suc k) (throttle_call s.landing_throttle)) armed),
      )

  afterwards-Landed :
      (start : ℕ) (g g' : MspInterface) (ts : List Tick) (r : Result (Unit {0}))
      → (r ≡ ok tt → g'.sent ≡ g.sent ++ arming_calls s)
      → Landed g
          (resume (λ w. descend s start w.script w.node) r (record { node = g'; script = ts }))
  unfolding descend
  afterwards-Landed start g g' ts (ok _) armed =
      descend-Landed g g' (armed refl) (descend s start ts g') (
        throttle_until-Flown s s.landing_throttle (has_landed s.in_air_alt_threshold) (touch_down s)
          (start + s.landing_timeout) landing_timed_out ts g')
  afterwards-Landed start g g' ts (err e) armed = tt

  land_from-Landed : (ts : List Tick) (g : MspInterface) → Landed g (land_from s ts g)
  unfolding land_from
  land_from-Landed [] g = tt
  land_from-Landed (t ∷ ts) g =
      afterwards-Landed t.clock g (arm_for_flight s g).1 (t ∷ ts) (arm_for_flight s g).0
        (arm_for_flight-sent s g)

  -- A landing that ends without an error was stopped, or it held the landing throttle until the latest
  -- altitude was no more than the threshold of flight, and then took the throttle down and disarmed.
  pub land-Landed :
      (w w' : World)
      → land s w ≡ some (ok tt, w')
      → (w'.node.stop_event ≡ true)
        ⊎ ((a : ℤ) × (k : ℕ) × (mode : ModeChannel) × (w'.node.latest_altitude ≡ some a)
            × (ltb_ℤ s.in_air_alt_threshold a ≡ false)
            × (lookup arm_mode_name s.mode_channels ≡ some mode)
            × (w'.node.sent
                ≡ w.node.sent
                  ++ arming_calls s
                  ++ replicate (suc k) (throttle_call s.landing_throttle)
                  ++ throttle_call s.rx_min ∷ []
                  ++ off_call mode ∷ []))
  unfolding land
  land-Landed w w' done = subst (Landed w.node) done (land_from-Landed w.script w.node)
