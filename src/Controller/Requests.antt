-- ===== src/Controller/Requests.antt =====
-- Which commands reach the backend, and what its reply becomes.
use mpfc.Prelude.{
  ℕ, ◌+◌, ◌≤◌, String, ◌≡◌, refl, ◌⊎◌, inl, inr, Bool, true, false, some, List, [], ◌∷◌, arith,
  eq_iff, nat_equality, string_equality, pair_equality, ◌==◌, Option-cases, any,
}
use mpfc.Dict.{Dict, lookup}
use mpfc.Dict.Laws.{lookup-remove}
use mpfc.Exec.{Error, ok, Result-cases}
use mpfc.Json.{Value, Fields, str, dict, field, end}
use mpfc.Occid.{Command, decode_occid_command}
use mpfc.Runtime.{enqueue_response}
use mpfc.Controller.{Pending, Settings, UavController, get_attr}
use mpfc.Controller.Requesting.{
  queue, forget, timed_out, refuse, is_immediate, expired_ids, expire_ids, expire_pending_requests,
  check_command, handle_request,
}

-- A command of a family that the controller forwards, for this vehicle.
pub record IsAdmitted (s : Settings) (request : Value) : Type 0 where
  pub request_id : String
  pub command : Command
  pub decoded : decode_occid_command s.codec s.show request ≡ ok (request_id, command)
  pub family : is_immediate command.family ≡ true
  pub target : command.target_uid ≡ s.target_uid

check_command-ok :
    (s : Settings) (k : Command) (u : Unit {0})
    → check_command s k ≡ ok u
    → (is_immediate k.family ≡ true) × (k.target_uid ≡ s.target_uid)
unfolding check_command
check_command-ok s k u h = ground (arith, eq_iff k.target_uid s.target_uid)

pending-refuse :
    (id name : String) (e : Error) (c : UavController)
    → (refuse id name e c).1.pending_backend_requests ≡ c.pending_backend_requests
pending-refuse id name e c = ground arith

client-refuse :
    (id name : String) (e : Error) (c : UavController)
    → (refuse id name e c).1.runtime.client ≡ c.runtime.client
unfolding enqueue_response
client-refuse id name e c = ground arith

-- A request puts something on the wire only if it decodes to a command of a family that the
-- controller forwards and that addresses this vehicle.
pub handle_request_only-IsAdmitted :
    (s : Settings) (now wall : ℕ) (request : Value) (c : UavController)
    → let c' = (handle_request s now wall request c).1 in
      ((c'.runtime.client ≡ c.runtime.client)
        × (c'.pending_backend_requests ≡ c.pending_backend_requests))
      ⊎ IsAdmitted s request
unfolding handle_request
handle_request_only-IsAdmitted s now wall request c =
    elim (Result-cases (get_attr "request_id" request)) [
      | inl (e, f) ↦ inl (rw (f, handle_request) (refl, refl))
      | inr (found, f) ↦ elim (Result-cases (decode_occid_command s.codec s.show request)) [
        | inl (e, g) ↦ inl (
            rw (f, g, handle_request)
              (client-refuse _ "Command" e c, pending-refuse _ "Command" e c))
        | inr (d, g) ↦ elim (Result-cases (check_command s d.1)) [
          | inl (e, k) ↦
              inl (rw (f, g, k, handle_request) (client-refuse _ _ e c, pending-refuse _ _ e c))
          | inr (u, k) ↦ inr (record {
            request_id = d.0;
            command = d.1;
            decoded = g;
            family = (check_command-ok s d.1 u k).0;
            target = (check_command-ok s d.1 u k).1;
          })
        ]
      ]
    ]

-- The reply of a backend to the request of id `id`.
abbrev pub reply : String → Bool → Fields → Value
reply id succeeded body =
    dict (
      field "request_id" (str id)
        (field "ok" (Value.bool succeeded) (field "data" (dict body) end)))

-- No request that still waits is overdue.
abbrev InTime : ℕ → ℕ → Pending → Type 0
InTime now timeout p = now ≤ p.created_at + timeout

abbrev listed : String → List String → Bool
listed id ids = any (λ i. i == id) ids

expired_ids-listed :
    (now timeout : ℕ) (id : String) (p : Pending) (d : Dict String Pending)
    → lookup id d ≡ some p
    → (listed id (expired_ids now timeout d) ≡ true) ⊎ InTime now timeout p
unfolding expired_ids lookup
expired_ids-listed now timeout id p [] h = cc
expired_ids-listed now timeout id p ((j, q) ∷ d) h =
    ground (arith, expired_ids-listed now timeout id p d, eq_iff j id)

lookup-expire_ids :
    (ids : List String) (id : String) (p : Pending) (c : UavController)
    → lookup id (expire_ids ids c).pending_backend_requests ≡ some p
    → (listed id ids ≡ false) × (lookup id c.pending_backend_requests ≡ some p)
unfolding expire_ids
lookup-expire_ids [] id p c h = (refl, h)
lookup-expire_ids (i ∷ ids) id p c h = elim (Option-cases (lookup i c.pending_backend_requests)) [
  | inl absent ↦
      let r = lookup-expire_ids ids id p c (rw (absent, expire_ids) at h) in
      (ground (arith, eq_iff i id, r.0, r.1, absent), r.1)
  | inr (q, waits) ↦
      let r =
        lookup-expire_ids ids id p (queue (timed_out i q) (forget i c))
          (rw (waits, expire_ids) at h) in
      let kept = lookup-remove i id c.pending_backend_requests in
      (ground (arith, eq_iff i id, r.0, r.1, kept), ground (arith, eq_iff i id, r.1, kept))
]

-- Behind an expiry every request that still waits, waited already and has waited no longer than the
-- timeout.
pub expire_pending_requests-InTime :
    (s : Settings) (now : ℕ) (id : String) (p : Pending) (c : UavController)
    → lookup id (expire_pending_requests s now c).pending_backend_requests ≡ some p
    → (lookup id c.pending_backend_requests ≡ some p) × (now ≤ p.created_at + s.response_timeout_s)
unfolding expire_pending_requests
expire_pending_requests-InTime s now id p c h =
    let ids = expired_ids now s.response_timeout_s c.pending_backend_requests in
    let r = lookup-expire_ids ids id p c h in
    (
      r.1,
      elim (expired_ids-listed now s.response_timeout_s id p c.pending_backend_requests r.1) [
        | inl gone ↦ absurd (cc (r.0, gone))
        | inr fits ↦ fits
      ],
    )
