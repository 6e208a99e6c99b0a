-- ===== src/Controller/Counting.antt =====
-- What each handler of the controller's requests does to the balance of an asker.

use mpfc.Prelude.{
  ℕ, ◌+◌, String, ◌≡◌, refl, sym, ap, inl, inr, none, some, List, [], ◌∷◌, arith, nat_equality,
  string_equality, pair_equality, Bool-cases, Option-cases,
}
use mpfc.Dict.{lookup}
use mpfc.Exec.{Error, is_data_error, Result, ok, err, Result-cases, >>=-eq-ok, ok-injective}
use mpfc.Dict.Size.{remove_absent, weigh-remove}
use mpfc.Json.{Value, get_item, get, dict, null, bool, int, float, str, list}
use mpfc.Occid.{Command, text_of, decode_occid_command, as_command}
use mpfc.Runtime.{Response}
use mpfc.Controller.{Pending, Settings, UavController, get_attr, dict_or_empty}
use mpfc.Controller.Requesting.{
  queue, forget, answered, timed_out, refuse, forward_backend_response, expire_ids, check_command,
  handle_request,
}
use mpfc.Controller.Soundness.{
  IsSound, own, balance, balance-queue, IsSound-queue, IsSound-forget, IsSound-forward,
  balance-forward,
}

-- Who asks with a request, and is to be answered: `unknown` where the request names no id.
abbrev pub asker_of : Settings → Value → String
asker_of s request = elim (get_attr "request_id" request) [
  | err e ↦ ""
  | ok found ↦ elim found [ none ↦ "unknown" | some v ↦ text_of s.show v ]
]

decode-asker_of :
    (s : Settings) (request : Value) (d : String × Command)
    → decode_occid_command s.codec s.show request ≡ ok d
    → d.0 ≡ asker_of s request
unfolding decode_occid_command get_item
decode-asker_of s (dict body) d h = elim (Option-cases (get "request_id" body)) [
  | inl missing ↦ absurd (ground (arith, h, missing))
  | inr (v, found) ↦
      let (packed, g, h') =
        >>=-eq-ok (get_item "command" (dict body)) _ (rw (found, decode_occid_command) at h) in
      let (model, k, h'') = >>=-eq-ok (s.codec.unpack packed) _ h' in
      let (command, l, same) = >>=-eq-ok (as_command model) _ h'' in
      rw (found, asker_of) (sym (ap (λ x. x.0) (ok-injective same)))
]
decode-asker_of s null d h = absurd (ground (arith, h))
decode-asker_of s (bool x) d h = absurd (ground (arith, h))
decode-asker_of s (int x) d h = absurd (ground (arith, h))
decode-asker_of s (float x) d h = absurd (ground (arith, h))
decode-asker_of s (str x) d h = absurd (ground (arith, h))
decode-asker_of s (list x) d h = absurd (ground (arith, h))

-- A call that may raise, from `c`: what holds behind it, and by how much the balance of an asker has
-- risen if it has returned.
pub record Accounts (asker : String) (c : UavController) (by : ℕ)
    (r : Result (Unit {0}) × UavController) : Type 0 where
  pub sound : IsSound r.1
  pub rises : r.0 ≡ ok tt → balance asker r.1 ≡ balance asker c + by

refuse-Accounts :
    (asker id name : String) (e : Error) (c : UavController)
    → IsSound c
    → Accounts asker c (own asker id) (refuse id name e c)
refuse-Accounts asker id name e c h = elim (Bool-cases (is_data_error e)) [
  | inl caught ↦
      rw caught (record { sound = IsSound-queue _ c h; rises = λ _. balance-queue asker _ c })
  | inr passed ↦ rw passed (record { sound = h; rises = λ x. cc })
]

-- A request from a program either raises, or is refused by one response to its asker, or waits for the
-- backend under its asker's id.
pub handle_request-Accounts :
    (asker : String) (s : Settings) (now wall : ℕ) (request : Value) (c : UavController)
    → IsSound c
    → Accounts asker c (own asker (asker_of s request)) (handle_request s now wall request c)
unfolding handle_request
handle_request-Accounts asker s now wall request c h =
    elim (Result-cases (get_attr "request_id" request)) [
      | inl (e, f) ↦ rw (f, handle_request) (record { sound = h; rises = λ x. cc })
      | inr (found, f) ↦ elim (Result-cases (decode_occid_command s.codec s.show request)) [
        | inl (e, g) ↦ rw (f, g, handle_request, asker_of) (refuse-Accounts asker _ "Command" e c h)
        | inr (d, g) ↦
            rw (sym (decode-asker_of s request d g)) (elim (Result-cases (check_command s d.1)) [
              | inl (e, k) ↦ rw (f, g, k, handle_request) (refuse-Accounts asker _ _ e c h)
              | inr (u, k) ↦
                  rw (f, g, k, handle_request)
                    (record {
                      sound = IsSound-forward s now wall d.0 d.1 c h;
                      rises = λ _. balance-forward asker s now wall d.0 d.1 c h;
                    })
            ])
      ]
    ]

-- A request that waits leaves the waiting ones when it is popped.
balance-forget :
    (asker id : String) (p : Pending) (c : UavController)
    → IsSound c
    → lookup id c.pending_backend_requests ≡ some p
    → balance asker (forget id c) + own asker p.request_id ≡ balance asker c
balance-forget asker id p c h e =
    omega
      (arith, weigh-remove (λ q. own asker q.request_id) id p c.pending_backend_requests h.unique e)

answered-request_id :
    (p : Pending) (payload : Value) (response : Response)
    → answered p payload ≡ ok response
    → response.request_id ≡ p.request_id
answered-request_id p payload response h =
    let (succeeded, f, h') = >>=-eq-ok (get_attr "ok" payload) _ h in
    let (result, g, h'') = >>=-eq-ok (get_attr "data" payload) _ h' in
    let (body, k, same) =
      >>=-eq-ok (dict_or_empty (elim result [ none ↦ null | some v ↦ v ])) _ h'' in
    ap (λ r. r.request_id) (sym (ok-injective same))

-- A response of the backend answers the asker of the request that waits under its id; one that nobody
-- waits for changes neither.
pub forward_backend_response-Accounts :
    (asker : String) (s : Settings) (payload : Value) (c : UavController)
    → IsSound c
    → Accounts asker c 0 (forward_backend_response s payload c)
unfolding forward_backend_response
forward_backend_response-Accounts asker s payload c h =
    elim (Result-cases (get_item "request_id" payload)) [
      | inl (e, f) ↦ rw (f, forward_backend_response) (record { sound = h; rises = λ x. cc })
      | inr (raw, f) ↦
          let id = text_of s.show raw in
          elim (Option-cases (lookup id c.pending_backend_requests)) [
            | inl absent ↦
                rw (f, absent, forward_backend_response)
                  (record {
                    sound = IsSound-forget id c h;
                    rises =
                        λ _. rw (remove_absent id c.pending_backend_requests absent) (omega arith);
                  })
            | inr (p, waits) ↦ elim (Result-cases (answered p payload)) [
              | inl (e, g) ↦
                  rw (f, waits, g, forward_backend_response)
                    (record { sound = IsSound-forget id c h; rises = λ x. cc })
              | inr (response, g) ↦
                  rw (f, waits, g, forward_backend_response)
                    (record {
                      sound = IsSound-queue response (forget id c) (IsSound-forget id c h);
                      rises = λ _. omega (
                        arith,
                        balance-queue asker response (forget id c),
                        balance-forget asker id p c h waits,
                        ap (own asker) (answered-request_id p payload response g),
                      );
                    })
            ]
          ]
    ]

-- What keeps the controller sound and the balance of an asker.
pub record Keeps (asker : String) (c d : UavController) : Type 0 where
  pub sound : IsSound d
  pub same : balance asker d ≡ balance asker c

pub expire_ids-Keeps :
    (asker : String) (ids : List String) (c : UavController)
    → IsSound c
    → Keeps asker c (expire_ids ids c)
unfolding expire_ids
expire_ids-Keeps asker [] c h = record { sound = h; same = refl }
expire_ids-Keeps asker (id ∷ ids) c h = elim (Option-cases (lookup id c.pending_backend_requests)) [
  | inl absent ↦ rw (absent, expire_ids) (expire_ids-Keeps asker ids c h)
  | inr (p, waits) ↦
      let k =
        expire_ids-Keeps asker ids (queue (timed_out id p) (forget id c))
          (IsSound-queue (timed_out id p) (forget id c) (IsSound-forget id c h)) in
      rw (waits, expire_ids)
        (record {
          sound = k.sound;
          same = omega (
            arith,
            k.same,
            balance-queue asker (timed_out id p) (forget id c),
            balance-forget asker id p c h waits,
          );
        })
]
