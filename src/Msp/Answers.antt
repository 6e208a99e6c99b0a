-- ===== src/Msp/Answers.antt =====
-- What becomes of a request: the waits end, and each request is answered or stops the adapter.

use mpfc.Prelude.{
  ℕ, String, ◌≡◌, refl, ap, ◌∙◌, inl, inr, true, false, Option, none, some, List, [], ◌∷◌, ◌++◌,
  arith, nat_equality, string_equality, pair_equality, is_some, Bool-cases, Option-cases,
}
use mpfc.Exec.{Error, Result, ok, err, Result-cases}
use mpfc.Json.{Value, end, field, dict, str}
use mpfc.Occid.{Command, family_name, decode_occid_command}
use mpfc.Runtime.{enqueue_response}
use mpfc.Msp.{Settings, MspInterface, World}
use mpfc.Msp.Loops.{
  carry_out, conclude, handle_command, capture_loop_error, end_request, take_next, process_request,
  is_refusal, respond,
}
use mpfc.Msp.Stability.{After, IsStable}
use mpfc.Msp.Frame.{carry_out-Stays}
use mpfc.Msp.Waits.{HasTime, Returns, by_family-Returns}

-- The command is answered under the request's id, as successful exactly when its handler returned without
-- an error.
abbrev pub IsAnswered :
    String → Command → Option (Result (Unit {0}) × World) → MspInterface → MspInterface → Type 0
IsAnswered id command none g g' = ⊥
IsAnswered id command (some (ok _, w)) g g' =
    g'.runtime.response_queue
    ≡ g.runtime.response_queue
      ++ record {
        request_id = id;
        action = family_name command.family;
        succeeded = true;
        payload = dict end;
      }
        ∷ []
IsAnswered id command (some (err e, w)) g g' =
    (is_refusal e ≡ true)
    × (g'.runtime.response_queue
        ≡ g.runtime.response_queue
          ++ record {
            request_id = id;
            action = family_name command.family;
            succeeded = false;
            payload = dict (field "error" (str e.text) end);
          }
            ∷ [])

-- The adapter stops, because an error is known.
abbrev pub IsStopping : MspInterface → Type 0
IsStopping g = (g.stop_event ≡ true) × (is_some g.loop_error ≡ true)

module _ (s : Settings) (wall : ℕ) (request : Value) (rest : List Value) (w : World) where
  -- The world in which the request is carried out.
  abbrev pub taken : World
  taken = record w { node = record w.node { request_queue = rest } }

  abbrev decoded : Result (String × Command)
  decoded = decode_occid_command s.codec s.readers.show request

  -- The request is decoded and answered; or it cannot be decoded, or raises what is not caught, and the
  -- adapter stops.
  pub data IsServed (g : MspInterface) : Type 0 where
    answered :
        (id : String) (command : Command)
        → decoded ≡ ok (id, command)
        → IsAnswered id command (carry_out s command taken) w.node g
        → IsServed g
    undecoded : (e : Error) → decoded ≡ err e → IsStopping g → IsServed g
    failed :
        (id : String) (command : Command) (e : Error) (w' : World)
        → decoded ≡ ok (id, command)
        → carry_out s command taken ≡ some (err e, w')
        → is_refusal e ≡ false
        → IsStopping g
        → IsServed g

  abbrev Kept : MspInterface → Type 0
  Kept g = (g.runtime ≡ w.node.runtime) × (g.request_queue ≡ rest)

  Kept-IsStable : IsStable Kept
  Kept-IsStable = record {
    by_call = λ g calls h. h;
    by_turn = λ g t h. h;
    by_altitude = λ g altitude h. h;
    by_begin = λ g h. h;
    by_end = λ g h. h;
  }

  capture-IsStopping :
      (e : Error) (g : MspInterface)
      → IsStopping (capture_loop_error s "process_requests" e wall g)
        × ((capture_loop_error s "process_requests" e wall g).request_queue ≡ g.request_queue)
  unfolding capture_loop_error
  capture-IsStopping e g = elim (Option-cases g.loop_error) [
    | inl first ↦ rw (first, capture_loop_error) ((refl, refl), refl)
    | inr (known, found) ↦ rw (found, capture_loop_error) ((refl, rw found refl), refl)
  ]

  abbrev Ends : Option (Result (Unit {0}) × World) → Type 0
  Ends o = (w' : World) × (o ≡ some (ok tt, w')) × (w'.node.request_queue ≡ rest) × IsServed w'.node

  conclude-Ends :
      (id : String) (command : Command)
      → decoded ≡ ok (id, command)
      → (o : Option (Result (Unit {0}) × World)) → carry_out s command taken ≡ o
      → Returns o
      → After Kept o
      → Ends (end_request s wall (conclude id (family_name command.family) o))
  unfolding end_request conclude respond enqueue_response
  conclude-Ends id command f none k returns kept = absurd (ground (arith, returns))
  conclude-Ends id command f (some (ok _, w')) k returns kept = (
    record w' { node = respond id (family_name command.family) true none w'.node },
    refl,
    kept.1,
    IsServed.answered id command f (rw k (rw kept.0 refl)),
  )
  conclude-Ends id command f (some (err e, w')) k returns kept = elim (Bool-cases (is_refusal e)) [
    | inl refusal ↦ (
      record w' { node = respond id (family_name command.family) false (some e.text) w'.node },
      rw refusal refl,
      kept.1,
      IsServed.answered id command f (rw k (refusal, rw kept.0 refl)),
    )
    | inr other ↦
        let (stopping, left) = capture-IsStopping e w'.node in
        (
          record w' { node = capture_loop_error s "process_requests" e wall w'.node },
          rw other refl,
          left ∙ kept.1,
          IsServed.failed id command e w' f k other stopping,
        )
  ]

  take_next-Ends : HasTime s w.script → Ends (take_next s wall false (request ∷ rest) w)
  unfolding take_next handle_command end_request carry_out
  take_next-Ends time = elim (Result-cases decoded) [
    | inl (e, f) ↦
        let (stopping, left) = capture-IsStopping e taken.node in
        rw (f, handle_command)
          (
            record taken { node = capture_loop_error s "process_requests" e wall taken.node },
            refl,
            left,
            IsServed.undecoded e f stopping,
          )
    | inr ((id, command), f) ↦
        rw (f, handle_command)
          (conclude-Ends id command f (carry_out s command taken) refl
            (by_family-Returns s command.family command.body taken time)
            (carry_out-Stays Kept Kept-IsStable s command taken (refl, refl)))
  ]

  -- Where some turn stops the adapter or comes later than the longest timeout: the request that a running
  -- adapter takes from its queue is answered once, under its own id, as successful exactly where its
  -- handler returned without an error, and with the error's text where it raised one that is caught, which
  -- says nothing of the flight: a take-off or a landing that is stopped returns without an error too. Or
  -- the request cannot be decoded or raises what is not caught, and the adapter stops with an error known.
  -- The requests behind it wait on.
  pub process_request-IsServed :
      w.node.stop_event ≡ false
      → w.node.request_queue ≡ request ∷ rest
      → HasTime s w.script
      → (w' : World) × (process_request s wall w ≡ some (ok tt, w'))
        × (w'.node.request_queue ≡ rest)
        × IsServed w'.node
  unfolding process_request
  process_request-IsServed running waiting time =
      let (w', done, left, served) = take_next-Ends time in
      let asked : process_request s wall w ≡ take_next s wall false (request ∷ rest) w =
        ap (λ b. take_next s wall b w.node.request_queue w) running
        ∙ ap (λ q. take_next s wall false q w) waiting in
      (w', asked ∙ done, left, served)
