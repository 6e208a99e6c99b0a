-- ===== src/Hivelink/Relay.antt =====
-- What `_send_outbound` hands to the datalink.

use mpfc.Prelude.{
  ne→beq, some, Option-cases, ◌≡◌, refl, sym, ap, ◌∙◌, ◌⊎◌, inl, inr, Bool, true, false, not, [],
  ◌∷◌, ◌++◌, nat_equality, string_equality, pair_equality, ◌==◌, if◌then◌else◌, Bool-cases,
}
use mpfc.Exec.{Error, Result, ok, err, ◌>>=◌, Result-cases, >>=-eq-ok, raise, ErrorClass}
use mpfc.Json.{get, Value, Fields, dict, get_item}
use mpfc.Occid.{text_of}
use mpfc.Hivelink.{
  Transmission, Settings, HiveLinkPlugin, transmission, cargo_of, send, as_object, send_object,
  send_outbound,
}
use mpfc.Hivelink.Asking.{
  IsFor, Uses, as_object-dict, not_blank, is_ok, flag-Uses, Uses-flag, cargo_of-Carries,
  Carries-cargo_of,
}

module _ (s : Settings) where
  -- Refused with nothing changed, or handed over.
  abbrev pub Outcome :
      (Transmission → Type 0) → HiveLinkPlugin → Result (Unit {0}) × HiveLinkPlugin → Type 0
  Outcome P g o =
      ((e : Error) × (o ≡ (err e, g)))
      ⊎ ((t : Transmission) × P t
          × (g.datalink_started ≡ true)
          × (o.1 ≡ record g { sent = g.sent ++ t ∷ [] })
          × (is_ok o.0 ≡ s.deliver g.sent t))

  send-Outcome :
      (P : Transmission → Type 0) (g : HiveLinkPlugin) (t : Transmission)
      → P t
      → g.datalink_started ≡ true
      → Outcome P g (send s t g)
  unfolding send
  send-Outcome P g t p started = elim (Bool-cases (s.deliver g.sent t)) [
    | inl taken ↦ rw taken (inr (t, p, started, refl, sym taken))
    | inr lost ↦ rw lost (inr (t, p, started, refl, sym lost))
  ]

  send-sent :
      (g : HiveLinkPlugin) (t : Transmission)
      → (send s t g).1 ≡ record g { sent = g.sent ++ t ∷ [] }
  unfolding send
  send-sent g t = elim (Bool-cases (s.deliver g.sent t)) [
    | inl taken ↦ rw taken refl
    | inr lost ↦ rw lost refl
  ]

  -- The transmission for fields with a destination, and the answer to it.
  send_object-Outcome :
      (envelope : Value) (body : Fields) (g : HiveLinkPlugin)
      → get_item "data" envelope ≡ ok (dict body)
      → Outcome (IsFor s envelope) g (send_object s body g)
  unfolding send_object transmission get_item
  send_object-Outcome envelope body g found = elim (Option-cases (get "dest" body)) [
    | inl missing ↦ rw (missing, send_object) (inl (_, refl))
    | inr (named, at) ↦
        let dest = text_of s.show named in
        rw (at, send_object)
          (elim (Bool-cases (dest == "")) [
            | inl blank ↦ rw (blank, send_object) (inl (_, refl))
            | inr given ↦ rw (given, send_object) (go named at given g.datalink_started refl)
          ])
  ]
    where
      go :
          (named : Value)
          → get "dest" body ≡ some named
          → (text_of s.show named == "") ≡ false
          → (started : Bool) → g.datalink_started ≡ started
          → Outcome (IsFor s envelope) g (
              if not started
              then (raise ErrorClass.runtime_error "HiveLink datalink is not started", g)
              else elim (cargo_of s body) [
                | err e ↦ (err e, g)
                | ok cargo ↦ send s (transmission s cargo (text_of s.show named) body) g
              ])
      go named at given false known = inl (_, refl)
      go named at given true known = elim (Result-cases (cargo_of s body)) [
        | inl (e, k) ↦ rw k (inl (e, refl))
        | inr (cargo, k) ↦
            let t = transmission s cargo (text_of s.show named) body in
            rw k (
              send-Outcome (IsFor s envelope) g t
                (
                  body,
                  (named, found, at, refl, not_blank (text_of s.show named) given),
                  cargo_of-Carries s body cargo k,
                  flag-Uses "udp" s.default_udp body,
                  flag-Uses "meshtastic" s.default_mesh body,
                  flag-Uses "multicast" s.default_multicast body,
                )
                known)
      ]

  IsFor-transmission :
      (t : Transmission) (body : Fields)
      → Uses "udp" s.default_udp body t.udp
      → Uses "meshtastic" s.default_mesh body t.meshtastic
      → Uses "multicast" s.default_multicast body t.multicast
      → transmission s t.cargo t.dest body ≡ t
  unfolding transmission
  IsFor-transmission t body udp mesh multicast =
      rw
        (
          Uses-flag "udp" s.default_udp body t.udp udp,
          Uses-flag "meshtastic" s.default_mesh body t.meshtastic mesh,
          Uses-flag "multicast" s.default_multicast body t.multicast multicast,
        )
        refl

  IsFor-sent :
      (envelope : Value) (g : HiveLinkPlugin) (t : Transmission)
      → IsFor s envelope t
      → g.datalink_started ≡ true
      → (send_outbound s envelope g).1 ≡ record g { sent = g.sent ++ t ∷ [] }
  unfolding send_outbound send_object get_item
  IsFor-sent envelope g t (body, (named, found, at, goes, given), carries, udp, mesh, multi)
        started =
      rw (found, send_outbound)
        (rw (at, send_object)
          (rw
            (
              sym goes,
              ne→beq t.dest "" given,
              started,
              Carries-cargo_of s body t.cargo carries,
              sym goes,
              IsFor-transmission t body udp mesh multi,
              send_object,
            )
            (send-sent g t
              ∙ ap (λ b. record g { datalink_started = b; sent = g.sent ++ t ∷ [] }) started)))

  -- An envelope on OCCID/OUT is either refused with an error and without any change, or handed to the
  -- datalink once, as the transmission that it asks for: the destination that its data names, which is
  -- not empty, the bytes or the model that it carries, and the links it chooses. Then the datalink has
  -- started, nothing else changes, and no error is raised exactly where the datalink takes it. And
  -- wherever an envelope asks for a transmission and the datalink has started, it is handed over.
  pub send_outbound-IsRelayed :
      (envelope : Value) (g : HiveLinkPlugin)
      → let o = send_outbound s envelope g in
        (((e : Error) × (o ≡ (err e, g)))
          ⊎ ((t : Transmission) × IsFor s envelope t
              × (g.datalink_started ≡ true)
              × (o.1 ≡ record g { sent = g.sent ++ t ∷ [] })
              × (is_ok o.0 ≡ s.deliver g.sent t)))
        × ((t : Transmission)
            → IsFor s envelope t
            → g.datalink_started ≡ true
            → o.1 ≡ record g { sent = g.sent ++ t ∷ [] })
  unfolding send_outbound
  send_outbound-IsRelayed envelope g = (
    elim (Result-cases (get_item "data" envelope >>= as_object)) [
      | inl (e, f) ↦ rw (f, send_outbound) (inl (e, refl))
      | inr (body, f) ↦
          let (v, found, object) = >>=-eq-ok (get_item "data" envelope) as_object f in
          rw (f, send_outbound)
            (send_object-Outcome envelope body g (found ∙ ap ok (as_object-dict v body object)))
    ],
    IsFor-sent envelope g,
  )
