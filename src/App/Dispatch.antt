-- ===== src/App/Dispatch.antt =====
-- app.go, `Run` and `usage`, and cmd/edukod-companion/main.go: from the arguments to the exit code.
pub mod Frame
use edukod_companion.Base.{
  ℕ, Bool, true, false, ◌||◌, Option, none, some, List, [], ◌∷◌, ◌++◌, Bytes, codes, bytes_eq,
  if◌then◌else◌, Result, ok, err,
}
use edukod_companion.App.Machine.{AppError, Env, Machine, Command}
use edukod_companion.App.Pair.{pair}
use edukod_companion.App.Unpair.{unpair}
use edukod_companion.App.Inspect.{status, doctor, print_models}
use edukod_companion.App.Start.{run}
use edukod_companion.App.Loop.{Round}

module _ {K : Type 0} (env : Env K) (rounds : List Round) where
  abbrev say : Bytes → Machine K → Machine K
  say line m = record m { stderr = m.stderr ++ line ∷ [] }

  unfoldable pub usage : Machine K → Machine K
  usage =
      say (codes "Usage: edukod-companion <pair|doctor|run|status|models|unpair|version> [options]")

  -- A command that has ended.
  finish : Result AppError (Unit {0}) × Machine K → Option ℕ × Machine K
  finish (ok u, m) = (some 0, m)
  finish (err e, m) = (some 1, say (codes "edukod-companion: " ++ env.describe e) m)

  finish_run : Result AppError Bool × Machine K → Option ℕ × Machine K
  unfolding finish
  finish_run (ok true, m) = (some 0, m)
  finish_run (ok false, m) = (none, m)
  finish_run (err e, m) = finish (err e, m)

  one_of : Bytes → Bytes → Bytes → Bytes → Bool
  one_of name a b c = bytes_eq name a || bytes_eq name b || bytes_eq name c

  -- `none`: the loop of `run` goes on after these rounds.
  dispatch : Bytes → List Bytes → Machine K → Option ℕ × Machine K
  unfolding usage finish_run one_of
  dispatch name arguments m =
      if bytes_eq name (codes "pair")
      then finish (pair env arguments m)
      else if bytes_eq name (codes "doctor")
      then finish (doctor env arguments m)
      else if bytes_eq name (codes "run")
      then finish_run (run env arguments rounds m)
      else if bytes_eq name (codes "status")
      then finish (status env arguments m)
      else if bytes_eq name (codes "models")
      then finish (print_models env arguments m)
      else if bytes_eq name (codes "unpair")
      then finish (unpair env arguments m)
      else if one_of name (codes "version") (codes "--version") (codes "-version")
      then (some 0, record m { stdout = m.stdout ++ env.app_version ∷ [] })
      else if one_of name (codes "help") (codes "--help") (codes "-h")
      then (some 0, usage m)
      else (some 2, usage (say (codes "unknown command " ++ env.quote name) m))

  unfoldable pub run_app : List Bytes → Machine K → Option ℕ × Machine K
  unfolding dispatch
  run_app [] m = (some 2, usage m)
  run_app (name ∷ arguments) m = dispatch name arguments m

  -- `os.Args` begins with the name of the program.
  unfoldable pub main : Bytes → List Bytes → Machine K → Option ℕ × Machine K
  main program arguments m = run_app arguments m
