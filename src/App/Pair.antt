-- ===== src/App/Pair.antt =====
-- app.go, `pair`: a device is enrolled and its credential kept, or given back.
pub mod Paired
pub mod Untouched
use edukod_companion.Base.{
  ℕ, Bool, true, false, not, Option, none, some, List, [], ◌∷◌, ◌++◌, Bytes, codes, bytes_eq,
  trim_space, if◌then◌else◌, Result, ok, err, pure, fail_if, ◌>>=◌, ◌>>◌,
}
use edukod_companion.Base.Url.{Url}
use edukod_companion.Config.FileSystem.{World, StoreError}
use edukod_companion.Config.Store.{Pairing, Store, exists, save}
use edukod_companion.Gateway.Client.{
  Enrollment, HttpRequest, GatewayError, validate_school_origin, enroll, revoke,
}
use edukod_companion.LocalApi.Address.{validate_base_url}
use edukod_companion.App.Machine.{
  AppError, bad_flags, positional, already_paired, bad_credential_store, bad_address, in_store,
  not_saved, at_gateway, PairFlags, Env, Machine, Command, on_store, on_gateway, from_result,
  from_option, print, new_store, open_store, default_store, default_name,
}

module _ {K : Type 0} (env : Env K) where
  -- The `switch` over the flag `credential-store`.
  unfoldable pub choose_store : Bytes → Option (Store K)
  choose_store kind =
      if bytes_eq kind (codes "auto")
      then some (default_store env)
      else if bytes_eq kind (codes "keyring")
      then some (record { keyring = some env.keyring; require_keyring = true })
      else if bytes_eq kind (codes "file")
      then some (record { keyring = none; require_keyring = false })
      else none

  abbrev pub new_pairing : PairFlags → Url → Url → Enrollment → Pairing
  new_pairing flags origin base enrollment = record {
    version = 0;
    school_origin = env.network.urls.text origin;
    device_id = enrollment.device_id;
    device_name = trim_space flags.device_name;
    web_socket_url = enrollment.web_socket_url;
    local_base_url = env.network.urls.text base;
    paired_at = env.now;
    token_in_keyring = false;
    device_token = [];
  }

  -- A pairing that cannot be saved is revoked, as far as that goes.
  or_revoke : Pairing → Bytes → Result StoreError (Unit {0}) × World K → Command K (Unit {0})
  or_revoke state token (ok u, w) m = (ok u, record m { world = w })
  or_revoke state token (err e, w) m = (
    err (not_saved e),
    record m { world = w; requests = (revoke env.network state.school_origin token m.requests).1 },
  )

  unfoldable pub save_or_revoke : Store K → Pairing → Bytes → Command K (Unit {0})
  unfolding or_revoke
  save_or_revoke store state token m =
      or_revoke state token (save env.store_json store state token m.world) m

  -- From the enrollment on. Enrolling has made the check of the origin before.
  unfoldable pub pair_enrolled : PairFlags → Url → Store K → Command K (Unit {0})
  pair_enrolled flags base store = do
    enrollment ←
        on_gateway at_gateway (enroll env.network flags.school flags.code flags.device_name)
    origin ← on_gateway at_gateway (validate_school_origin env.network flags.school)
    save_or_revoke store (new_pairing flags origin base enrollment) enrollment.device_token
    print (
        codes "Paired "
        ++ trim_space flags.device_name
        ++ codes " with "
        ++ env.network.urls.text origin
        ++ codes ". Run `edukod-companion doctor`, then enable the user service.")

  -- From the store on.
  unfoldable pub pair_checked : PairFlags → Url → Command K (Unit {0})
  pair_checked flags base = do
    new_store (open_store env flags.config_directory)
    there ← on_store in_store exists
    fail_if there already_paired
    store ← from_option bad_credential_store (choose_store flags.credential_store)
    pair_enrolled flags base store

  unfoldable pub pair : List Bytes → Command K (Unit {0})
  pair arguments = do
    flags ← from_option bad_flags (env.parse_pair (default_name env.host_name) arguments)
    fail_if flags.has_arguments positional
    base ←
        from_result bad_address
          (validate_base_url env.network.urls env.resolve flags.local_base_url)
    pair_checked flags base
