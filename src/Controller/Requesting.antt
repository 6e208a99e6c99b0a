-- ===== src/Controller/Requesting.antt =====
-- The requests that plugins/uav_controller/uav_controller.py forwards, and their answers.
use mpfc.Prelude.{
  ℕ, ◌+◌, String, Bool, true, false, not, none, some, List, [], ◌∷◌, nat_equality, string_equality,
  pair_equality, ◌==◌, ltb, if◌then◌else◌,
}
use mpfc.Dict.{Dict, lookup, insert, remove}
use mpfc.Exec.{ErrorClass, Error, is_data_error, Result, ok, err, ◌>>=◌, ◌>>◌, raise_if}
use mpfc.Json.{Value, null, str, dict, end, field, get_item}
use mpfc.Text.{◌<>◌}
use mpfc.Occid.{CommandFamily, Command, Model, family_name, text_of, decode_occid_command}
use mpfc.Router.{next_request_id}
use mpfc.Runtime.{Response, enqueue_response}
use mpfc.Controller.{
  Pending, Settings, UavController, truthy, dict_or_empty, get_attr, post_message,
}

abbrev pub queue : Response → UavController → UavController
queue response c = record c { runtime = enqueue_response response c.runtime }

abbrev failure : String → String → String → Response
failure request_id command_name text = record {
  request_id = request_id;
  action = command_name;
  succeeded = false;
  payload = dict (field "error" (str text) end);
}

abbrev pub forget : String → UavController → UavController
forget id c = record c {
  bus = record c.bus { responses = remove id c.bus.responses };
  pending_backend_requests = remove id c.pending_backend_requests;
}

abbrev pub answered : Pending → Value → Result Response
answered p payload = do
  succeeded ← get_attr "ok" payload
  result ← get_attr "data" payload
  body ← dict_or_empty (elim result [ none ↦ null | some v ↦ v ])
  ok (record {
    request_id = p.request_id;
    action = p.command_name;
    succeeded = elim succeeded [ none ↦ false | some v ↦ truthy v ];
    payload = body;
  })

-- `_forward_backend_response`. The waiting entry is popped before the payload is read.
unfoldable pub forward_backend_response :
    Settings → Value → UavController → Result (Unit {0}) × UavController
forward_backend_response s payload c = elim (get_item "request_id" payload) [
  | err e ↦ (err e, c)
  | ok raw ↦
      let id = text_of s.show raw in
      elim (lookup id c.pending_backend_requests) [
        | none ↦ (ok tt, forget id c)
        | some p ↦ elim (answered p payload) [
          | err e ↦ (err e, forget id c)
          | ok response ↦ (ok tt, queue response (forget id c))
        ]
      ]
]

-- The ids whose requests have waited too long.
unfoldable pub expired_ids : ℕ → ℕ → Dict String Pending → List String
expired_ids now timeout [] = []
expired_ids now timeout ((id, p) ∷ rest) =
    let ids = expired_ids now timeout rest in
    if ltb (p.created_at + timeout) now then id ∷ ids else ids

abbrev pub timed_out : String → Pending → Response
timed_out id p = failure p.request_id p.command_name ("backend result timed out request_id=" <> id)

-- The second loop of `_expire_pending_requests`; each id is one of the dictionary's.
unfoldable pub expire_ids : List String → UavController → UavController
expire_ids [] c = c
expire_ids (id ∷ ids) c = expire_ids ids (elim (lookup id c.pending_backend_requests) [
  | none ↦ c
  | some p ↦ queue (timed_out id p) (forget id c)
])

unfoldable pub expire_pending_requests : Settings → ℕ → UavController → UavController
unfolding expired_ids expire_ids
expire_pending_requests s now c =
    expire_ids (expired_ids now s.response_timeout_s c.pending_backend_requests) c

abbrev pub is_immediate : CommandFamily → Bool
is_immediate (CommandFamily.other_command _) = false
is_immediate _ = true

-- The tests of `_handle_request` on a decoded command.
unfoldable pub check_command : Settings → Command → Result (Unit {0})
check_command s k = do
  raise_if (not (is_immediate k.family)) ErrorClass.type_error
      "uav_controller accepts concrete OCCID Command families only"
  raise_if (not (k.target_uid == s.target_uid)) ErrorClass.value_error
      "command target_uid does not address this UAV"

-- `send_occid_command`, and the entry that waits for the backend.
unfoldable pub forward_command : Settings → ℕ → ℕ → String → Command → UavController → UavController
unfolding next_request_id
forward_command s now wall request_id k c =
    let (id, bus) = next_request_id c.bus in
    let payload =
      dict (field "request_id" (str id) (field "command" (s.codec.pack (Model.command k)) end)) in
    let c' = post_message s.backend_request_topic payload wall (record c { bus = bus }) in
    record c' {
      pending_backend_requests =
          insert id
            (record {
              request_id = request_id;
              command_name = family_name k.family;
              created_at = now;
            })
            c.pending_backend_requests;
    }

-- The `except` of `_handle_request`.
abbrev pub refuse : String → String → Error → UavController → Result (Unit {0}) × UavController
refuse request_id command_name e c =
    if is_data_error e
    then (ok tt, queue (failure request_id command_name e.text) c)
    else (err e, c)

-- `_handle_request`
unfoldable pub handle_request :
    Settings → ℕ → ℕ → Value → UavController → Result (Unit {0}) × UavController
handle_request s now wall request c = elim (get_attr "request_id" request) [
  | err e ↦ (err e, c)
  | ok found ↦
      let claimed = elim found as (λ _. String) [ none ↦ "unknown" | some v ↦ text_of s.show v ] in
      elim (decode_occid_command s.codec s.show request) [
        | err e ↦ refuse claimed "Command" e c
        | ok (request_id, k) ↦ elim (check_command s k) [
          | err e ↦ refuse request_id (family_name k.family) e c
          | ok _ ↦ (ok tt, forward_command s now wall request_id k c)
        ]
      ]
]
