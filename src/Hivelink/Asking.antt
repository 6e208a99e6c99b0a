-- ===== src/Hivelink/Asking.antt =====
-- The transmission that an envelope on OCCID/OUT asks for, read from its data.
use mathlib.Core.Path.{subst}
use mpfc.Prelude.{
  none, some, Option-cases, String, ◌≡◌, refl, sym, ap, ◌∙◌, ◌≢◌, ◌⊎◌, inl, inr, Bool, true, false,
  arith, nat_equality, string_equality, pair_equality, ◌==◌,
}
use mpfc.Exec.{Result, ok, err, >>=-eq-ok, ok-injective}
use mpfc.Controller.{truthy}
use mpfc.Json.{get, Value, Fields, dict, get_item, null, bool, int, float, str, list}
use mpfc.Occid.{text_of}
use mpfc.Hivelink.{flag, Cargo, Transmission, Settings, cargo_of, as_object}

-- The fields of an envelope's data, and the text of its destination.
abbrev pub HasDest : Settings → Value → Fields → String → Type 0
HasDest s envelope body dest =
    (named : Value) × (get_item "data" envelope ≡ ok (dict body))
    × (get "dest" body ≡ some named)
    × (dest ≡ text_of s.show named)
    × (dest ≢ "")

-- Bytes where `sdk_payload` is given, and else the model.
abbrev pub Carries : Settings → Fields → Cargo → Type 0
Carries s body (Cargo.sdk_payload bytes) =
    (payload : Value) × (get "sdk_payload" body ≡ some payload)
    × (s.b64decode (text_of s.show payload) ≡ ok bytes)
Carries s body (Cargo.occid_model model) =
    (packed : Value) × (get "sdk_payload" body ≡ none)
    × (get "model" body ≡ some packed)
    × (s.codec.unpack packed ≡ ok model)

-- A link is used as the data says, and as configured where the data says nothing.
abbrev pub Uses : String → Bool → Fields → Bool → Type 0
Uses key default body used =
    ((get key body ≡ none) × (used ≡ default))
    ⊎ ((v : Value) × (get key body ≡ some v) × (used ≡ truthy v))

-- The transmission that an envelope on OCCID/OUT asks for.
abbrev pub IsFor : Settings → Value → Transmission → Type 0
IsFor s envelope t =
    (body : Fields) × HasDest s envelope body t.dest
    × Carries s body t.cargo
    × Uses "udp" s.default_udp body t.udp
    × Uses "meshtastic" s.default_mesh body t.meshtastic
    × Uses "multicast" s.default_multicast body t.multicast

pub as_object-dict : (v : Value) (body : Fields) → as_object v ≡ ok body → v ≡ dict body
as_object-dict (dict d) body h = ap dict (ok-injective h)
as_object-dict null body h = absurd (ground (arith, h))
as_object-dict (bool b) body h = absurd (ground (arith, h))
as_object-dict (int n) body h = absurd (ground (arith, h))
as_object-dict (float x) body h = absurd (ground (arith, h))
as_object-dict (str x) body h = absurd (ground (arith, h))
as_object-dict (list x) body h = absurd (ground (arith, h))

pub not_blank : (dest : String) → (dest == "") ≡ false → dest ≢ ""
not_blank dest h e = absurd (ground (arith, sym (ap (λ d. d == "") e) ∙ h))

abbrev pub is_ok : Result (Unit {0}) → Bool
is_ok (ok _) = true
is_ok (err _) = false

pub flag-Uses :
    (key : String) (default : Bool) (body : Fields) → Uses key default body (flag key default body)
flag-Uses key default body = elim (Option-cases (get key body)) [
  | inl missing ↦ rw (missing, flag) (inl (refl, refl))
  | inr (v, given) ↦ rw (given, flag) (inr (v, refl, refl))
]

pub Uses-flag :
    (key : String) (default : Bool) (body : Fields) (used : Bool)
    → Uses key default body used
    → flag key default body ≡ used
Uses-flag key default body used (inl (missing, as_default)) = rw (missing, flag) (sym as_default)
Uses-flag key default body used (inr (v, given, as_given)) = rw (given, flag) (sym as_given)

module _ (s : Settings) where
  pub cargo_of-Carries :
      (body : Fields) (cargo : Cargo) → cargo_of s body ≡ ok cargo → Carries s body cargo
  unfolding cargo_of get_item
  cargo_of-Carries body cargo h = elim (Option-cases (get "sdk_payload" body)) [
    | inr (payload, given) ↦
        let (bytes, decoded, same) =
          >>=-eq-ok (s.b64decode (text_of s.show payload)) (λ bytes. ok (Cargo.sdk_payload bytes))
            (rw (given, cargo_of) at h) in
        subst (Carries s body) (ok-injective same) (payload, given, decoded)
    | inl no_bytes ↦ elim (Option-cases (get "model" body)) [
      | inl no_model ↦ absurd (ground (arith, h, no_bytes, no_model))
      | inr (packed, given) ↦
          let (model, unpacked, same) =
            >>=-eq-ok (s.codec.unpack packed) (λ model. ok (Cargo.occid_model model))
              (rw (given, cargo_of) at (rw (no_bytes, cargo_of) at h)) in
          subst (Carries s body) (ok-injective same) (packed, no_bytes, given, unpacked)
    ]
  ]

  pub Carries-cargo_of :
      (body : Fields) (cargo : Cargo) → Carries s body cargo → cargo_of s body ≡ ok cargo
  unfolding cargo_of get_item
  Carries-cargo_of body (Cargo.sdk_payload bytes) (payload, given, decoded) =
      rw (given, cargo_of) (rw (decoded, cargo_of) refl)
  Carries-cargo_of body (Cargo.occid_model model) (packed, no_bytes, given, unpacked) =
      rw (no_bytes, cargo_of) (rw (given, cargo_of) (rw (unpacked, cargo_of) refl))
