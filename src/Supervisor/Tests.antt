-- ===== src/Supervisor/Tests.antt =====
-- Runs of the supervisor with a core and one plugin.
use mpfc.Prelude.{
  refl, ◌≢◌, inl, inr, true, false, none, some, [], ◌∷◌, arith, nat_equality, string_equality,
  pair_equality,
}
use mpfc.Prelude.Int.{pos}
use mpfc.Supervisor.{Proc, Turn, Supervisor, supervisor, run}
use mpfc.Supervisor.Invariant.{EndsValid, run-EndsValid}
use mpfc.Supervisor.Handlers.{IsValid}
use mpfc.Supervisor.Ending.{run_ends}

abbrev core_ended : Proc
core_ended = record { name = "core-1"; alive = false; exitcode = pos 0 }

abbrev plugin_runs : Proc
plugin_runs = record { name = "plugin-1"; alive = true; exitcode = pos 0 }

-- The core has ended, and the plugin runs on.
abbrev mission_over : Turn
mission_over = record {
  receive_error = none;
  terminate_requested = false;
  topic = none;
  seen = record { core = core_ended; plugins = plugin_runs ∷ [] };
  others = plugin_runs ∷ [];
  clock = 100;
  publish_error = none;
  left = record { core = core_ended; plugins = plugin_runs ∷ [] };
  clock_after = 101;
}

abbrev late : Turn
late = record mission_over { clock = 5200; clock_after = 5201 }

supervisor-IsValid : IsValid supervisor
supervisor-IsValid = record {
  failed_stops = λ text h. absurd (ground (arith, h));
  started_stops = λ began h. absurd (ground (arith, h));
  announced_once = refl;
}

run-EndsValid_example : EndsValid supervisor (run false (mission_over ∷ late ∷ []) supervisor)
run-EndsValid_example = run-EndsValid false (mission_over ∷ late ∷ []) supervisor supervisor-IsValid

abbrev stopping : Supervisor
stopping = record {
  shutdown_requested = true;
  shutdown_started_at = some 100;
  failure_reason = none;
  announced = 1;
}

stopping-IsValid : IsValid stopping
stopping-IsValid = record {
  failed_stops = λ text h. refl;
  started_stops = λ began h. refl;
  announced_once = refl;
}

run_ends_example : run false (mission_over ∷ late ∷ []) stopping ≢ none
run_ends_example =
    run_ends false 100 (mission_over ∷ late ∷ []) stopping stopping-IsValid refl
      (inr (inl (omega arith)))

not_empty : core_ended ∷ [] ≢ []
not_empty = λ e. ground (arith, e)
