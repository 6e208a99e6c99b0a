-- ===== src/Supervisor.antt =====
-- main.py: the supervisor loop at the end of `start_from_config`, which watches the processes of the
-- core and of the plugins and ends them together. Times are milliseconds. A turn carries what the loop
-- reads in it: the signal, the bus, the processes each time that the code asks, and the clock each time;
-- and what `receive` and the publish of the shutdown raise, if they do. A failed publish of paho's is caught
-- and raises nothing. A KeyboardInterrupt comes where the loop waits, out of `receive`.
pub mod Handlers
pub mod Invariant
pub mod Ending
pub mod Tests
use mpfc.Prelude.{
  ℕ, zero, suc, ◌+◌, ◌-◌, ◌*◌, ◌/◌, ◌%◌, ◌≤◌, ◌<◌, min, max, String, ◌≡◌, refl, sym, ap, ◌∙◌, ◌≢◌,
  ◌↔◌, ◌⊎◌, inl, inr, Bool, true, false, not, ◌&&◌, ◌||◌, Option, none, some, List, [], ◌∷◌, ◌++◌,
  map, arith, eq_iff, Equality, nat_equality, string_equality, pair_equality, ◌==◌, beq_refl,
  beq-sym, beq→eq, ne→beq, ltb, leb, if◌then◌else◌, is_some, ltb→lt, lt→ltb, ge→ltb, ltb→ge,
  Bool-cases, Option-cases, length, length-append, any, all, keep, All, All-append,
}
use mpfc.Exec.{Error}
use mpfc.Prelude.Int.{ℤ, pos, negsuc}
use mpfc.Text.{◌<>◌, decimal}

-- A process when the code asks whether it is alive.
pub record Proc : Type 0 where
  pub name : String
  pub alive : Bool
  pub exitcode : ℤ

-- `all_procs`: the core's process comes first.
pub record Procs : Type 0 where
  pub core : Proc
  pub plugins : List Proc

abbrev pub all_procs : Procs → List Proc
all_procs p = p.core ∷ p.plugins

pub record Turn : Type 0 where
  pub receive_error : Option Error
  pub terminate_requested : Bool
  pub topic : Option String
  pub seen : Procs
  pub others : List Proc
  pub clock : ℕ
  pub publish_error : Option Error
  pub left : Procs
  pub clock_after : ℕ

-- `announced` counts the calls that publish `CONTROL/SHUTDOWN` in the loop.
pub record Supervisor : Type 0 where
  pub shutdown_requested : Bool
  pub shutdown_started_at : Option ℕ
  pub failure_reason : Option String
  pub announced : ℕ

abbrev pub supervisor : Supervisor
supervisor = record {
  shutdown_requested = false;
  shutdown_started_at = none;
  failure_reason = none;
  announced = 0;
}

unfoldable pub ends_with : String → String → Bool
ends_with end String.[] = end == ""
ends_with end (String.◌∷◌ c rest) = end == String.◌∷◌ c rest || ends_with end rest

abbrev pub show_int : ℤ → String
show_int (pos n) = decimal n
show_int (negsuc n) = "-" <> decimal (suc n)

abbrev pub alive_among : List Proc → List Proc
alive_among ps = keep (λ p. p.alive) ps

abbrev pub dead_among : List Proc → List Proc
dead_among ps = keep (λ p. not p.alive) ps

-- `", ".join(f"{proc.name}({proc.exitcode})" for proc in dead)`
unfoldable pub names_of : List Proc → String
names_of [] = ""
names_of (p ∷ []) = p.name <> "(" <> show_int p.exitcode <> ")"
names_of (p ∷ q ∷ ps) = p.name <> "(" <> show_int p.exitcode <> "), " <> names_of (q ∷ ps)

abbrev pub request_shutdown : Supervisor → Supervisor
request_shutdown s = record s { shutdown_requested = true }

abbrev pub first_reason : Option String → String → Option String
first_reason none text = some text
first_reason (some kept) text = some kept

-- The signal and the bus.
unfoldable pub hear : Turn → Supervisor → Supervisor
unfolding ends_with
hear t s = if t.terminate_requested then request_shutdown s else (elim t.topic [
  | none ↦ s
  | some topic ↦
      if topic == "CONTROL/SHUTDOWN"
      then request_shutdown s
      else if ends_with "/ERROR" topic
      then request_shutdown (record s {
        failure_reason =
            first_reason s.failure_reason ("runtime component reported error topic=" <> topic);
      })
      else s
])

abbrev pub is_zero : ℤ → Bool
is_zero (pos n) = n == 0
is_zero (negsuc n) = false

-- The mission is over and nothing else has ended.
abbrev pub is_completion : Bool → Turn → Bool
is_completion resident t =
    not resident
    && not t.seen.core.alive
    && is_zero t.seen.core.exitcode
    && all (λ p. p.alive) t.others

-- The processes that have ended.
unfoldable pub notice_dead : Bool → Turn → Supervisor → Supervisor
unfolding names_of
notice_dead resident t s =
    if s.shutdown_requested then s else (elim (dead_among (all_procs t.seen)) [
      | [] ↦ s
      | p ∷ ps ↦
          if is_completion resident t
          then request_shutdown s
          else request_shutdown (record s {
            failure_reason = some ("unexpected runtime component exit: " <> names_of (p ∷ ps));
          })
    ])

-- The shutdown is announced in the turn that begins it.
unfoldable pub begin_shutdown : Turn → Supervisor → Supervisor
begin_shutdown t s = elim s.shutdown_started_at [
  | some began ↦ s
  | none ↦
      if s.shutdown_requested
      then record s { shutdown_started_at = some t.clock; announced = s.announced + 1 }
      else s
]

unfoldable pub turn : Bool → Turn → Supervisor → Supervisor
unfolding hear notice_dead begin_shutdown
turn resident t s = begin_shutdown t (notice_dead resident t (hear t s))

-- The processes that are terminated where the loop ends in this turn.
unfoldable pub ends : Turn → Supervisor → Option (List Proc)
ends t s = if not s.shutdown_requested then none else (elim (alive_among (all_procs t.left)) [
  | [] ↦ some []
  | p ∷ ps ↦ elim s.shutdown_started_at [
    | none ↦ none
    | some began ↦ if ltb (began + 5000) t.clock_after then some (p ∷ ps) else none
  ]
])

-- What the publish of this turn raises; `s` is the state before it.
unfoldable pub announce_error : Turn → Supervisor → Option Error
announce_error t s =
    if s.shutdown_requested && not (is_some s.shutdown_started_at) then t.publish_error else none

-- How the loop ends: by a break, with the processes that it terminates, or by an error.
pub data Exit : Type 0 where
  broke : List Proc → Exit
  raised : Error → Exit

-- The loop's tests behind the turn's changes.
abbrev pub exit_of : Option Error → Option (List Proc) → Option Exit
exit_of (some e) _ = some (Exit.raised e)
exit_of none (some terminated) = some (Exit.broke terminated)
exit_of none none = none

-- The loop; `none` where the turns end before it does.
unfoldable pub run : Bool → List Turn → Supervisor → Option (Supervisor × Exit)
unfolding turn ends announce_error
run resident [] s = none
run resident (t ∷ ts) s =
    let s' = turn resident t s in
    let error = announce_error t (notice_dead resident t (hear t s)) in
    elim t.receive_error [
      | some e ↦ some (s, Exit.raised e)
      | none ↦ elim (exit_of error (ends t s')) [
        | some exit ↦ some (s', exit)
        | none ↦ run resident ts s'
      ]
    ]
