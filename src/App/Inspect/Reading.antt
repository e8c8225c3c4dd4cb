-- ===== src/App/Inspect/Reading.antt =====
-- The commands that only look.
use edukod_companion.Base.{
  Bool, true, false, if◌then◌else◌, refl, Option, none, List, Bytes, Result, ok, err, ◌>>=◌,
}
use edukod_companion.Base.Triples.{Post, Post-any, continue-Post}
use edukod_companion.Config.FileSystem.{World, StoreError}
use edukod_companion.Config.Store.{RuntimeStatus, load}
use edukod_companion.Config.Store.Directory.{Kept}
use edukod_companion.Config.Store.Quiet.{load-IsQuiet, load_status-IsQuiet}
use edukod_companion.App.Machine.{
  AppError, bad_flags, bad_address, bad_local_url, in_store, bad_pairing, not_json, at_local_api,
  bad_models, Env, Machine, Command, from_result, from_option, new_store, open_store, default_store,
  on_store,
}
use edukod_companion.App.Machine.Rules.{
  Untouched, quiet-Post, from_option-Post, from_result-Post, new_store-Post,
}
use edukod_companion.App.Inspect.{
  is_not_exist, load_pairing, status_or_empty, found_status, status, status_report, local_base,
  ask_models, print_models, doctor,
}

module _ {K : Type 0} (env : Env K) where
  -- A command that leaves everything as it was, but for what it prints.
  abbrev IsReading : {A : Type 0} → Command K A → Type 0
  IsReading command =
      (m v : Machine K) → Untouched m v → Post (λ a. Untouched m) (Untouched m) (command v)

  bind-IsReading :
      {A B : Type 0} (command : Command K A) (f : A → Command K B)
      → IsReading command
      → ((a : A) → IsReading (f a))
      → IsReading (command >>= f)
  bind-IsReading command f q r m v h =
      continue-Post (λ a. Untouched m) (λ b. Untouched m) (Untouched m) (command v) f (q m v h)
        (λ a x p. r a m x p)

  from_option-IsReading :
      {A : Type 0} (e : AppError) (found : Option A) → IsReading (from_option e found)
  from_option-IsReading e found m v h =
      from_option-Post (λ a. Untouched m) (Untouched m) e found v h (λ a same. h)

  from_result-IsReading :
      {E A : Type 0} (wrap : E → AppError) (found : Result E A) → IsReading (from_result wrap found)
  from_result-IsReading wrap found m v h =
      from_result-Post (λ a. Untouched m) (Untouched m) wrap found v h (λ a same. h)

  pub load_pairing-IsReading :
      (wrap : StoreError → AppError) (arguments : List Bytes)
      → IsReading (load_pairing env wrap arguments)
  unfolding load_pairing
  load_pairing-IsReading wrap arguments =
      bind-IsReading (from_option bad_flags (env.parse_common arguments)) _
        (from_option-IsReading bad_flags (env.parse_common arguments))
        (λ directory.
          bind-IsReading (new_store (open_store env directory)) _
            (λ m v h. new_store-Post (λ u. Untouched m) (Untouched m) _ v h h)
            (λ u m v h.
              quiet-Post wrap (load env.store_json (default_store env)) m v
                (load-IsQuiet env.store_json (default_store env)) h))

  status_or_empty-Post :
      (w0 : World K) (r : Result StoreError RuntimeStatus × World K)
      → Post (λ a. Kept w0) (Kept w0) r
      → Post (λ a. Kept w0) (Kept w0) (status_or_empty env r)
  unfolding status_or_empty
  status_or_empty-Post w0 (ok found, w) h = h
  status_or_empty-Post w0 (err e, w) h = by_test (is_not_exist e)
    where
      by_test :
          (b : Bool)
          → Post
              (λ (a : Option RuntimeStatus). Kept w0)
              (Kept w0)
              (if b then (ok none, w) else (err e, w))
      by_test true = h
      by_test false = h

  status-IsReading : (arguments : List Bytes) → IsReading (status env arguments)
  unfolding status found_status
  status-IsReading arguments =
      bind-IsReading (load_pairing env in_store arguments) _
        (load_pairing-IsReading in_store arguments)
        (λ loaded.
          bind-IsReading (on_store in_store (found_status env)) _
            (λ m v h.
              quiet-Post in_store (found_status env) m v
                (λ w0 w k. status_or_empty-Post w0 _ (load_status-IsQuiet env.store_json _ w0 w k))
                h)
            (λ found.
              bind-IsReading (from_option not_json (env.report (status_report env loaded.0 found)))
                _ (from_option-IsReading not_json _) (λ line m v h. h)))

  print_models-IsReading : (arguments : List Bytes) → IsReading (print_models env arguments)
  unfolding print_models
  print_models-IsReading arguments =
      bind-IsReading (load_pairing env in_store arguments) _
        (load_pairing-IsReading in_store arguments)
        (λ loaded.
          bind-IsReading (from_result bad_address (local_base env loaded.0)) _
            (from_result-IsReading bad_address _)
            (λ base.
              bind-IsReading (from_result at_local_api (ask_models env base)) _
                (from_result-IsReading at_local_api _)
                (λ payload.
                  bind-IsReading (from_option not_json (env.pretty payload)) _
                    (from_option-IsReading not_json _) (λ line m v h. h))))

  doctor-IsReading : (arguments : List Bytes) → IsReading (doctor env arguments)
  unfolding doctor
  doctor-IsReading arguments =
      bind-IsReading (load_pairing env bad_pairing arguments) _
        (load_pairing-IsReading bad_pairing arguments)
        (λ loaded m v h.
          bind-IsReading (from_result bad_local_url (local_base env loaded.0)) _
            (from_result-IsReading bad_local_url _)
            (λ base.
              bind-IsReading (from_result bad_models (ask_models env base)) _
                (from_result-IsReading bad_models _) (λ payload m' v' h'. h'))
            m _ h)

  -- `status`, `doctor` and `models`, whether they succeed or not, change no file and no secret, and
  -- send nothing to the school.
  pub inspect-Untouched :
      (arguments : List Bytes) (m : Machine K)
      → Untouched m (status env arguments m).1
        × Untouched m (doctor env arguments m).1
        × Untouched m (print_models env arguments m).1
  inspect-Untouched arguments m = (
    Post-any (Untouched m) _ (status-IsReading arguments m m ((refl, refl, refl), refl)),
    Post-any (Untouched m) _ (doctor-IsReading arguments m m ((refl, refl, refl), refl)),
    Post-any (Untouched m) _ (print_models-IsReading arguments m m ((refl, refl, refl), refl)),
  )
