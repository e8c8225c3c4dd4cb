-- ===== src/App/Tests.antt =====
-- Runs of the reconnect loop, and its theorems at concrete rounds.
use edukod_companion.Base.{
  ℕ, ◌*◌, ◌^◌, ◌≡◌, refl, false, none, some, [], ◌∷◌, ◌++◌, arith, codes, err, min,
}
use edukod_companion.Relay.Options.{ns_per_second}
use edukod_companion.App.SafeError.{safe_error}
use edukod_companion.App.Loop.{Round, Vars, initial, next_backoff, run}
use edukod_companion.App.Loop.Backoff.{IsFailure, backoff_doubles, backoff_stuck}
use edukod_companion.App.Loop.Pace.{IsPaced, run-IsPaced}
use edukod_companion.App.Loop.Report.{SaysDisconnected, last_report, run_says}

abbrev failed_at : ℕ → Round
failed_at now = record {
  canceled_at_top = false;
  dial = err (codes "connection refused");
  served = none;
  canceled_after = false;
  random = some 0;
  canceled_waiting = false;
  resumed_at = now;
}

failed_at-IsFailure : (now : ℕ) → IsFailure (failed_at now)
failed_at-IsFailure now = record {
  at_top = refl;
  dial = (codes "connection refused", refl);
  after = refl;
  waiting = refl;
}

abbrev was_connected : Vars
was_connected = record { backoff = 8 * ns_per_second; last_connected_at = some 0 }

-- An hour after the last connection the loop still tries every two seconds.
after_an_hour :
    (run was_connected (failed_at (3600 * ns_per_second) ∷ failed_at (3603 * ns_per_second) ∷ [])).0
    ≡ some (record was_connected { backoff = 2 * ns_per_second })
unfolding run next_backoff
after_an_hour = refl

backoff_stuck_example :
    (run was_connected (failed_at (3600 * ns_per_second) ∷ failed_at (3603 * ns_per_second) ∷ [])).0
    ≡ some (record was_connected { backoff = 2 * ns_per_second })
backoff_stuck_example =
    backoff_stuck was_connected 0 (failed_at (3600 * ns_per_second))
      (failed_at (3603 * ns_per_second) ∷ []) refl
      ((failed_at-IsFailure _, omega arith), ((failed_at-IsFailure _, omega arith), tt))

backoff_doubles_example :
    (w : Vars) × ((run initial (failed_at 1 ∷ failed_at 2 ∷ [])).0 ≡ some w)
    × (w.backoff ≡ min (ns_per_second * 2 ^ 2) (30 * ns_per_second))
backoff_doubles_example =
    backoff_doubles (failed_at 1 ∷ failed_at 2 ∷ [])
      (failed_at-IsFailure 1, (failed_at-IsFailure 2, tt))

abbrev failed_once : Vars
failed_once = record { backoff = 2 * ns_per_second; last_connected_at = none }

goes_on : (run initial (failed_at 1 ∷ [])).0 ≡ some failed_once
unfolding run next_backoff
goes_on = refl

run-IsPaced_example : IsPaced (failed_at 1 ∷ []) (run initial (failed_at 1 ∷ [])).1
run-IsPaced_example =
    run-IsPaced initial failed_once (failed_at 1 ∷ []) (omega arith, omega arith) (omega arith, tt)
      goes_on

run_says_example :
    SaysDisconnected
      (run initial (failed_at 1 ∷ [])).0
      (last_report none (run initial (failed_at 1 ∷ [])).1)
run_says_example = run_says none initial (failed_at 1) []

two_lines : safe_error (some (codes "a" ++ (10 ∷ 13 ∷ codes "b"))) ≡ codes "a  b"
unfolding safe_error
two_lines = refl
