-- ===== src/App/Inspect.antt =====
-- app.go, the commands that only look: `status`, `doctor` and `models`.
pub mod Reading
use edukod_companion.Base.{
  Bool, true, false, Option, none, some, List, [], ◌∷◌, ◌++◌, Bytes, codes, decimal, if◌then◌else◌,
  Result, ok, err, pure, ◌>>=◌, ◌>>◌,
}
use edukod_companion.Config.FileSystem.{World, StoreError, OsError, not_exist, os, Io}
use edukod_companion.Config.Store.{Pairing, RuntimeStatus, load, load_status}
use edukod_companion.Protocol.Message.{ℤ, pos}
use edukod_companion.LocalApi.Address.{new_base, AddressError}
use edukod_companion.LocalApi.Forward.{models}
use edukod_companion.Relay.Execute.{GoError}
use edukod_companion.Relay.Options.{default_max_response_bytes}
use edukod_companion.Base.Url.{Url}
use edukod_companion.App.Machine.{
  AppError, bad_flags, bad_address, bad_local_url, in_store, bad_pairing, not_json, at_local_api,
  bad_models, Env, Machine, Command, StatusReport, on_store, from_result, from_option, print,
  new_store, open_store, default_store,
}

-- `errors.Is(e, os.ErrNotExist)`.
is_not_exist : StoreError → Bool
is_not_exist (os not_exist) = true
is_not_exist _ = false

module _ {K : Type 0} (env : Env K) where
  -- The start of every command but `pair` and `unpair`.
  unfoldable pub load_pairing : (StoreError → AppError) → List Bytes → Command K (Pairing × Bytes)
  load_pairing wrap arguments = do
    directory ← from_option bad_flags (env.parse_common arguments)
    new_store (open_store env directory)
    on_store wrap (load env.store_json (default_store env))

  -- A status that was never written is an empty one.
  status_or_empty :
      Result StoreError RuntimeStatus × World K → Result StoreError (Option RuntimeStatus) × World K
  unfolding is_not_exist
  status_or_empty (ok found, w) = (ok (some found), w)
  status_or_empty (err e, w) = if is_not_exist e then (ok none, w) else (err e, w)

  found_status : Io K (Option RuntimeStatus)
  unfolding status_or_empty
  found_status w = status_or_empty (load_status env.store_json (default_store env) w)

  abbrev pub status_report : Pairing → Option RuntimeStatus → StatusReport
  status_report state found = record {
    pairing = state;
    credential_store = if state.token_in_keyring then codes "secret-service" else codes "file";
    runtime = found;
  }

  unfoldable pub status : List Bytes → Command K (Unit {0})
  unfolding found_status
  status arguments = do
    loaded ← load_pairing in_store arguments
    found ← on_store in_store found_status
    line ← from_option not_json (env.report (status_report loaded.0 found))
    print line

  -- The base of the client for the local API of a pairing.
  unfoldable pub local_base : Pairing → Result AddressError Url
  local_base state =
      new_base env.network.urls env.resolve state.local_base_url (pos default_max_response_bytes)

  ask_models : Url → Result GoError Bytes
  ask_models base =
      models env.protocol_json env.unicode default_max_response_bytes (env.new_request base)
        (env.transport base) env.now

  unfoldable pub print_models : List Bytes → Command K (Unit {0})
  unfolding ask_models
  print_models arguments = do
    loaded ← load_pairing in_store arguments
    base ← from_result bad_address (local_base loaded.0)
    payload ← from_result at_local_api (ask_models base)
    line ← from_option not_json (env.pretty payload)
    print line

  unfoldable pub doctor : List Bytes → Command K (Unit {0})
  unfolding ask_models
  doctor arguments = do
    loaded ← load_pairing bad_pairing arguments
    print (
        codes "ok  paired device "
        ++ loaded.0.device_name
        ++ codes " ("
        ++ loaded.0.device_id
        ++ codes ")")
    base ← from_result bad_local_url (local_base loaded.0)
    payload ← from_result bad_models (ask_models base)
    print (
        codes "ok  local model API responded ("
        ++ decimal (env.count_models payload)
        ++ codes " advertised models)")
    print (codes "ok  configuration is ready; the persistent WSS connection is tested by `run`")
