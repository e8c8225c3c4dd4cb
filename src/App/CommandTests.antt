-- ===== src/App/CommandTests.antt =====
-- Runs of the commands, and their theorems in a concrete environment.
use edukod_companion.Base.{
  ◌≡◌, refl, some, [], ◌∷◌, codes, ok, err, trim_space, bytes_eq, contains_any, ◌⊎◌,
}
use edukod_companion.Base.Url.{has_extras}
use edukod_companion.Base.Triples.{Post}
use edukod_companion.Config.FileSystem.{
  regular, call, call_with, rename, rename_onto, replace, read_file, content_of,
}
use edukod_companion.Config.Path.{store_path, default_directory}
use edukod_companion.Config.Store.{
  exists, save, load, delete, remove_file, atomic_write, ensure_private_directory, fill_and_rename,
  is_complete,
}
use edukod_companion.Config.Store.Directory.{Kept}
use edukod_companion.Config.Store.Deleted.{IsUnpaired}
use edukod_companion.Gateway.Identity.{contains_control, valid_device_id}
use edukod_companion.Gateway.Client.{
  enroll, revoke, accept, send, validate_school_origin, validate_web_socket_url, https, wss,
  web_socket_path,
}
use edukod_companion.LocalApi.Address.{validate_base_url, new_base, v1_path, http}
use edukod_companion.LocalApi.Loopback.{is_loopback, ensure_loopback_host}
use edukod_companion.App.Machine.{open_store}
use edukod_companion.App.Machine.{
  AppError, PairFlags, on_store, on_gateway, from_result, from_option, new_store, default_name,
}
use edukod_companion.App.Machine.Rules.{Untouched}
use edukod_companion.App.Pair.{choose_store, save_or_revoke, pair_enrolled, pair_checked, pair}
use edukod_companion.App.Pair.Paired.{IsPaired, pair-IsPaired}
use edukod_companion.App.Pair.Untouched.{pair-Untouched}
use edukod_companion.App.Unpair.{unpair}
use edukod_companion.App.Unpair.Revoked.{WasRevoked, unpair-IsSafe}
use edukod_companion.App.Inspect.{load_pairing, local_base}
use edukod_companion.App.Start.{start, check_stored}
use edukod_companion.App.Start.Ready.{IsReady, start-IsReady}
use edukod_companion.App.Start.Kept.{KeepsPairing}
use edukod_companion.App.Dispatch.{run_app}
use edukod_companion.App.Dispatch.Frame.{run_app-KeepsPairing}
use edukod_companion.App.Example.{
  local_url, parse_known, token, paired_state, unpair_flags, env, empty, paired, paired_there,
}

pairs : (pair env [] empty).0 ≡ ok tt
unfolding open_store store_path default_directory pair pair_checked pair_enrolled save_or_revoke
    choose_store on_store on_gateway from_result from_option new_store default_name
    validate_base_url parse_known is_loopback ensure_loopback_host v1_path http has_extras enroll
    validate_school_origin validate_web_socket_url accept send contains_control contains_any
    valid_device_id trim_space bytes_eq https wss web_socket_path save exists atomic_write
    ensure_private_directory fill_and_rename call call_with rename rename_onto replace
pairs = refl

pair-IsPaired_example :
    (flags : PairFlags) × (env.parse_pair (default_name env.host_name) [] ≡ some flags)
    × IsPaired env flags (pair env [] empty).1
pair-IsPaired_example = pair-IsPaired env [] empty refl pairs

pair-Untouched_example :
    ((e : AppError) × ((pair env [] paired).0 ≡ err e)) × Untouched paired (pair env [] paired).1
pair-Untouched_example =
    pair-Untouched env [] (regular 0o600 (codes "pairing\n")) paired paired_there

unpairs : (unpair env [] paired).0 ≡ ok tt
unfolding open_store store_path default_directory unpair on_store on_gateway from_option new_store
    load delete remove_file is_complete revoke validate_school_origin send parse_known has_extras
    trim_space bytes_eq https contains_any call call_with replace read_file content_of
unpairs = refl

unpair-IsSafe_example :
    Post
      (λ u v. IsUnpaired v.world × WasRevoked env paired v)
      (λ v. Kept paired.world v.world ⊎ WasRevoked env paired v)
      (unpair env [] paired)
unpair-IsSafe_example = unpair-IsSafe env [] unpair_flags paired refl refl

starts : (start env [] paired).0 ≡ ok ((paired_state, token), local_url)
unfolding open_store store_path default_directory start check_stored load_pairing local_base
    on_store on_gateway from_result from_option new_store load is_complete validate_school_origin
    validate_web_socket_url parse_known has_extras trim_space bytes_eq https wss web_socket_path
    call call_with replace read_file content_of new_base validate_base_url is_loopback
    ensure_loopback_host v1_path http
starts = refl

start-IsReady_example : IsReady env paired paired_state local_url
start-IsReady_example = start-IsReady env [] paired paired_state token local_url starts

run_app-KeepsPairing_example : KeepsPairing env paired (run_app env [] (codes "run" ∷ []) paired).1
run_app-KeepsPairing_example =
    run_app-KeepsPairing env [] (codes "run") [] paired (λ e. cc) (λ e. cc)
