-- ===== src/App/Dispatch/Frame.antt =====
-- Which commands may change the pairing.
use edukod_companion.Base.{
  ℕ, ◌≢◌, refl, ap, Bool, true, false, Option, List, ◌∷◌, Bytes, codes, bytes_eq, bytes_eq_iff,
  arith, if◌then◌else◌, Result, ok, err, Bool-cases, inl, inr,
}
use edukod_companion.Config.FileSystem.{config_file}
use edukod_companion.App.Machine.{AppError, Env, Machine}
use edukod_companion.App.Machine.Rules.{Untouched}
use edukod_companion.App.Inspect.{status, doctor, print_models}
use edukod_companion.App.Inspect.Reading.{inspect-Untouched}
use edukod_companion.App.Start.{run}
use edukod_companion.App.Start.Kept.{KeepsPairing, run-KeepsPairing}
use edukod_companion.App.Loop.{Round}
use edukod_companion.App.Dispatch.{finish, finish_run, usage, one_of, dispatch, run_app}

module _ {K : Type 0} (env : Env K) (rounds : List Round) where
  Untouched-KeepsPairing : (m v : Machine K) → Untouched m v → KeepsPairing env m v
  Untouched-KeepsPairing m v p = ((ap (λ g. g config_file) p.0.0, p.0.1), p.1)

  finish-KeepsPairing :
      (m : Machine K) (r : Result AppError (Unit {0}) × Machine K)
      → KeepsPairing env m r.1
      → KeepsPairing env m (finish env rounds r).1
  unfolding finish
  finish-KeepsPairing m (ok u, v) h = h
  finish-KeepsPairing m (err e, v) h = h

  finish_run-KeepsPairing :
      (m : Machine K) (r : Result AppError Bool × Machine K)
      → KeepsPairing env m r.1
      → KeepsPairing env m (finish_run env rounds r).1
  unfolding finish_run
  finish_run-KeepsPairing m (ok true, v) h = h
  finish_run-KeepsPairing m (ok false, v) h = h
  finish_run-KeepsPairing m (err e, v) h = finish-KeepsPairing m (err e, v) h

  -- One alternative of the `switch` after the other.
  choice-KeepsPairing :
      (m : Machine K) (test : Bool) (then' else' : Option ℕ × Machine K)
      → KeepsPairing env m then'.1
      → KeepsPairing env m else'.1
      → KeepsPairing env m (if test then then' else else').1
  choice-KeepsPairing m true then' else' h k = h
  choice-KeepsPairing m false then' else' h k = k

  skipped :
      (m : Machine K) (name wanted : Bytes) (then' else' : Option ℕ × Machine K)
      → name ≢ wanted
      → KeepsPairing env m else'.1
      → KeepsPairing env m (if bytes_eq name wanted then then' else else').1
  skipped m name wanted then' else' other k = elim (Bool-cases (bytes_eq name wanted)) [
    | inl equals ↦ absurd (other (ground (arith, bytes_eq_iff name wanted)))
    | inr differs ↦ simp differs k
  ]

  -- Any command but `pair` and `unpair`, an unknown one and `run` included, leaves the pairing's file
  -- and the keyring as they were and sends nothing to the school's device API.
  pub run_app-KeepsPairing :
      (name : Bytes) (arguments : List Bytes) (m : Machine K)
      → name ≢ codes "pair"
      → name ≢ codes "unpair"
      → KeepsPairing env m (run_app env rounds (name ∷ arguments) m).1
  unfolding run_app dispatch usage
  run_app-KeepsPairing name arguments m other other' =
      let (read_status, read_doctor, read_models) = inspect-Untouched env arguments m in
      let unchanged : KeepsPairing env m m = ((refl, refl), refl) in
      skipped m name (codes "pair") _ _ other (
        choice-KeepsPairing m (bytes_eq name (codes "doctor")) _ _
          (finish-KeepsPairing m (doctor env arguments m)
            (Untouched-KeepsPairing m (doctor env arguments m).1 read_doctor))
          (choice-KeepsPairing m (bytes_eq name (codes "run")) _ _
            (finish_run-KeepsPairing m (run env arguments rounds m)
              (run-KeepsPairing env arguments rounds m))
            (choice-KeepsPairing m (bytes_eq name (codes "status")) _ _
              (finish-KeepsPairing m (status env arguments m)
                (Untouched-KeepsPairing m (status env arguments m).1 read_status))
              (choice-KeepsPairing m (bytes_eq name (codes "models")) _ _
                (finish-KeepsPairing m (print_models env arguments m)
                  (Untouched-KeepsPairing m (print_models env arguments m).1 read_models))
                (skipped m name (codes "unpair") _ _ other' (
                  choice-KeepsPairing m
                    (one_of env rounds name (codes "version") (codes "--version")
                      (codes "-version"))
                    _ _ unchanged
                    (choice-KeepsPairing m
                      (one_of env rounds name (codes "help") (codes "--help") (codes "-h")) _ _
                      unchanged unchanged)))))))
