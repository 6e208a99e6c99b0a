-- ===== src/Msp/Merging.antt =====
-- What the adapter shows as the control output, and that a poll always goes through.
use mpfc.Semantics.{AuxChannel}
use mpfc.Prelude.{
  ℕ, zero, suc, String, ◌≡◌, refl, ap, ◌∙◌, inl, inr, none, some, List, [], ◌∷◌, arith,
  nat_equality, string_equality, pair_equality, ◌==◌, if◌then◌else◌, Bool-cases, Option-cases,
}
use mpfc.Dict.{contains, insert}
use mpfc.Exec.{ok}
use mpfc.Prelude.Int.{ℤ, pos}
use mpfc.Json.{Value}
use mpfc.Scheduler.{StateScheduler, add, update}
use mpfc.Msp.{Settings, MspInterface}
use mpfc.Msp.Telemetry.{
  Packing, Reading, pad, assign_at, merge_aux, publish_model, publish_models, models_of,
  flight_control_of, refresh_state,
}

-- A channel's value; one that a list does not reach is 0.0.
abbrev pub channel : ℕ → List ℤ → ℤ
channel n [] = pos 0
channel zero (x ∷ xs) = x
channel (suc n) (x ∷ xs) = channel n xs

-- The last value that the override gives for a channel.
abbrev pub last_value : ℕ → List AuxChannel → ℤ → ℤ
last_value n [] base = base
last_value n (a ∷ rest) base =
    last_value n rest
      (elim a.value [ none ↦ base | some v ↦ if a.channel_index == n then v else base ])

channel-pad : (n i : ℕ) (xs : List ℤ) → channel n (pad i xs) ≡ channel n xs
unfolding pad
channel-pad zero zero [] = refl
channel-pad (suc n) zero [] = refl
channel-pad n zero (x ∷ xs) = refl
channel-pad zero (suc i) [] = refl
channel-pad (suc n) (suc i) [] = channel-pad n i []
channel-pad zero (suc i) (x ∷ xs) = refl
channel-pad (suc n) (suc i) (x ∷ xs) = channel-pad n i xs

channel-assign_at :
    (n i : ℕ) (v : ℤ) (xs : List ℤ)
    → channel n (assign_at i v (pad i xs)) ≡ (if i == n then v else channel n xs)
unfolding pad assign_at
channel-assign_at zero zero v [] = ground arith
channel-assign_at (suc n) zero v [] = ground arith
channel-assign_at zero zero v (x ∷ xs) = ground arith
channel-assign_at (suc n) zero v (x ∷ xs) = ground arith
channel-assign_at zero (suc i) v [] = ground arith
channel-assign_at (suc n) (suc i) v [] = ground (arith, channel-assign_at n i v [])
channel-assign_at zero (suc i) v (x ∷ xs) = ground arith
channel-assign_at (suc n) (suc i) v (x ∷ xs) = ground (arith, channel-assign_at n i v xs)

-- Every auxiliary channel of the merge holds the last value that the override gives for it, and the base's
-- value where it gives none.
pub last_value-merge_aux :
    (n : ℕ) (aux : List AuxChannel) (base : List ℤ)
    → channel n (merge_aux aux base) ≡ last_value n aux (channel n base)
unfolding merge_aux
last_value-merge_aux n [] base = refl
last_value-merge_aux n (a ∷ rest) base = elim (Option-cases a.value) [
  | inl kept ↦
      rw (kept, merge_aux)
        (last_value-merge_aux n rest (pad a.channel_index base)
          ∙ ap (last_value n rest) (channel-pad n a.channel_index base))
  | inr (v, given) ↦
      rw (given, merge_aux)
        (last_value-merge_aux n rest (assign_at a.channel_index v (pad a.channel_index base))
          ∙ ap (last_value n rest) (channel-assign_at n a.channel_index v base))
]

publish_model_total :
    (key : String) (model : Value) (scheduler : StateScheduler)
    → (r : StateScheduler) × (publish_model key model scheduler ≡ ok r)
unfolding publish_model update
publish_model_total key model scheduler = elim (Bool-cases (contains key scheduler.topics)) [
  | inl known ↦ (
    record scheduler {
      state = insert key model scheduler.state;
      pending = add key scheduler.pending;
    },
    rw (known, publish_model) refl,
  )
  | inr other ↦ (scheduler, rw (other, publish_model) refl)
]

publish_models_total :
    (models : List (String × Value)) (scheduler : StateScheduler)
    → (r : StateScheduler) × (publish_models models scheduler ≡ ok r)
unfolding publish_models
publish_models_total [] scheduler = (scheduler, refl)
publish_models_total ((key, model) ∷ rest) scheduler =
    let (r, e) = publish_model_total key model scheduler in
    let (r', e') = publish_models_total rest r in (r', rw e e')

-- A poll that has its reading always goes through: streams without a topic are left out, and the reading's
-- flight control state and altitude are what the other threads see behind it.
pub refresh_state_total :
    (s : Settings) (p : Packing) (now : ℕ) (r : Reading) (g : MspInterface)
    → (scheduler : StateScheduler) × (refresh_state s p now r g
        ≡ ok (record g {
          state_scheduler = scheduler;
          latest_flight_control = some (flight_control_of s r);
          latest_altitude = r.location_altitude;
        }))
unfolding refresh_state
refresh_state_total s p now r g =
    let (scheduler, e) = publish_models_total (models_of s p now r g) g.state_scheduler in
    (scheduler, rw e refl)
