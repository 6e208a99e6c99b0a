-- ===== src/Controller/Soundness.antt =====
-- The numbering of the waiting requests, and what each change of the table does to it.

use mpfc.Prelude.{
  ℕ, ◌+◌, ◌<◌, String, ◌≡◌, none, [], ◌∷◌, arith, nat_equality, string_equality, pair_equality,
  ne→beq, if◌then◌else◌, ◌==◌, List, ◌++◌,
}
use mpfc.Dict.{lookup}
use mpfc.Dict.Laws.{lookup-insert, lookup-remove}
use text.Mathlib.TextLemmas.{append_cancel_left}
use mpfc.Dict.Size.{IsUnique, weigh, weigh-insert_new, IsUnique-insert, IsUnique-remove}
use mpfc.Text.{◌<>◌, decimal, decimal-injective}
use mpfc.Occid.{Command}
use mpfc.Runtime.{Response, enqueue_response}
use mpfc.Controller.{Settings, UavController}
use mpfc.Controller.Requesting.{queue, forget, forward_command}

abbrev pub numbered : ℕ → String
numbered n = "req-" <> decimal n

-- Requests that wait have ids of their own, and the ids to come are free.
pub record IsSound (c : UavController) : Type 0 where
  pub unique : IsUnique c.pending_backend_requests
  pub free :
      (n : ℕ) → c.bus.request_counter < n → lookup (numbered n) c.pending_backend_requests ≡ none

-- One where a request or a response is the asker's.
abbrev pub own : String → String → ℕ
own asker id = if id == asker then 1 else 0

abbrev pub answers : String → List Response → ℕ
answers asker [] = 0
answers asker (r ∷ rs) = own asker r.request_id + answers asker rs

-- The requests of an asker that wait, and the queued responses to it.
abbrev pub balance : String → UavController → ℕ
balance asker c =
    weigh (λ p. own asker p.request_id) c.pending_backend_requests
    + answers asker c.runtime.response_queue

answers-append :
    (asker : String) (rs : List Response) (r : Response)
    → answers asker (rs ++ r ∷ []) ≡ answers asker rs + own asker r.request_id
answers-append asker [] r = omega arith
answers-append asker (q ∷ rs) r = omega (arith, answers-append asker rs r)

numbered-injective : (m n : ℕ) → numbered m ≡ numbered n → m ≡ n
numbered-injective m n e =
    decimal-injective m n (append_cancel_left "req-" (decimal m) (decimal n) e)

pub balance-queue :
    (asker : String) (r : Response) (c : UavController)
    → balance asker (queue r c) ≡ balance asker c + own asker r.request_id
unfolding enqueue_response
balance-queue asker r c = omega (arith, answers-append asker c.runtime.response_queue r)

pub IsSound-queue : (r : Response) (c : UavController) → IsSound c → IsSound (queue r c)
unfolding enqueue_response
IsSound-queue r c h = record { unique = h.unique; free = h.free }

pub IsSound-forget : (id : String) (c : UavController) → IsSound c → IsSound (forget id c)
IsSound-forget id c h = record {
  unique = IsUnique-remove id c.pending_backend_requests h.unique;
  free = λ n lt.
      rw (lookup-remove id (numbered n) c.pending_backend_requests) (ground (arith, h.free n lt));
}

pub IsSound-forward :
    (s : Settings) (now wall : ℕ) (id : String) (k : Command) (c : UavController)
    → IsSound c
    → IsSound (forward_command s now wall id k c)
unfolding forward_command
IsSound-forward s now wall id k c h = record {
  unique =
      IsUnique-insert (numbered (c.bus.request_counter + 1)) _ c.pending_backend_requests h.unique;
  free = λ n lt.
      rw
        (lookup-insert (numbered (c.bus.request_counter + 1)) (numbered n) _
          c.pending_backend_requests)
        (rw
          (ne→beq (numbered (c.bus.request_counter + 1)) (numbered n)
            (λ e. absurd (omega (arith, numbered-injective (c.bus.request_counter + 1) n e))))
          (h.free n (omega arith)));
}

pub balance-forward :
    (asker : String) (s : Settings) (now wall : ℕ) (id : String) (k : Command) (c : UavController)
    → IsSound c
    → balance asker (forward_command s now wall id k c) ≡ balance asker c + own asker id
unfolding forward_command
balance-forward asker s now wall id k c h = omega (
  arith,
  weigh-insert_new (λ p. own asker p.request_id) (numbered (c.bus.request_counter + 1)) _
      c.pending_backend_requests (h.free (c.bus.request_counter + 1) (omega arith)),
)
