-- ===== src/App/ResumedTests.antt =====
-- `run` after `pair`, in a concrete environment.
use edukod_companion.Base.{
  ◌≡◌, ◌≢◌, ap, refl, true, false, Option, none, some, [], ◌∷◌, Bytes, codes, ok, trim_space,
  bytes_eq,
}
use edukod_companion.Base.Url.{Url}
use edukod_companion.Config.Path.{store_path, default_directory}
use edukod_companion.Config.Store.{Keyring, whole}
use edukod_companion.Gateway.Identity.{valid_device_id}
use edukod_companion.Gateway.Client.{Enrollment, https, wss, web_socket_path}
use edukod_companion.LocalApi.Address.{v1_path, http, validate_base_url}
use edukod_companion.LocalApi.Loopback.{is_loopback, ensure_loopback_host}
use edukod_companion.App.Pair.{choose_store}
use edukod_companion.App.Pair.Paired.{IsPaired}
use edukod_companion.App.Start.{start}
use edukod_companion.Base.Url.{has_extras}
use edukod_companion.App.Example.{
  local_api, school, socket, school_url, socket_url, local_url, parse_known, print_known, token,
  network, store_json, locked, pair_flags, env, paired, paired_there,
}
use edukod_companion.Gateway.Client.Checks.{IsOrigin}
use edukod_companion.Gateway.Client.Guarantees.{IsUsable}
use edukod_companion.LocalApi.Address.{IsLocalBase}
use edukod_companion.Config.Store.Saved.{IsStored}
use edukod_companion.Config.Store.RoundTrip.{IsFaithful}
use edukod_companion.App.Machine.{default_store, open_store}
use edukod_companion.App.Pair.{new_pairing}
use edukod_companion.App.Start.Resumed.{calm, saved, start-pair}
use edukod_companion.Base.{arith, inl}

known_school : network.urls.parse (trim_space school) ≡ some school_url
unfolding parse_known trim_space bytes_eq
known_school = refl

known_socket : network.urls.parse (trim_space socket) ≡ some socket_url
unfolding parse_known trim_space bytes_eq
known_socket = refl

school_origin : IsOrigin network school school_url
unfolding https
school_origin = (school_url, known_school, refl, (λ e. cc), refl, (refl, refl, refl))

abbrev enrollment : Enrollment
enrollment = record {
  device_id = codes "device-001";
  device_token = token;
  web_socket_url = socket;
}

enrollment-IsUsable : IsUsable network school enrollment
unfolding valid_device_id wss web_socket_path
enrollment-IsUsable = (
  refl,
  omega arith,
  omega arith,
  (school_url, school_origin, (socket_url, known_socket, refl, refl, refl, (refl, refl, refl))),
)

local-IsLocalBase : IsLocalBase network.urls env.resolve local_url
unfolding http v1_path is_loopback
local-IsLocalBase = record {
  scheme = inl refl;
  plain = (refl, refl, refl);
  path = refl;
  raw = refl;
  source = local_url;
  named = λ e. cc;
  same = refl;
  addresses = (127 ∷ 0 ∷ 0 ∷ 1 ∷ []) ∷ [];
  resolved = refl;
  nonempty = λ e. cc;
  loopback = (refl, tt);
}

not_kept : false ≢ true
not_kept e = cc

device_named : codes "device-001" ≢ []
device_named e = cc

token_given : token ≢ []
token_given e = cc

abbrev is_stored :
    IsStored store_json
      (default_store env)
      (new_pairing env pair_flags school_url local_url enrollment)
      token
      paired.world
is_stored = record {
  stored = false;
  text = codes "pairing";
  encoded = refl;
  file = paired_there;
  folder = (0o700, refl, refl);
  kept = λ e. absurd (not_kept e);
  identity = (device_named, token_given);
}

local_checked : validate_base_url network.urls env.resolve local_api ≡ ok local_url
unfolding validate_base_url parse_known has_extras trim_space bytes_eq is_loopback
    ensure_loopback_host v1_path http
local_checked = refl

chosen_auto : choose_store env (codes "auto") ≡ some (default_store env)
unfolding choose_store bytes_eq
chosen_auto = refl

abbrev paired-IsPaired : IsPaired env pair_flags paired
paired-IsPaired = record {
  origin = school_url;
  base = local_url;
  enrollment = enrollment;
  store = default_store env;
  chosen = chosen_auto;
  school = school_origin;
  checked = local_checked;
  local = local-IsLocalBase;
  usable = enrollment-IsUsable;
  stored = is_stored;
  safe = tt;
}

saved_again :
    store_json.decode (codes "pairing\n") ≡ whole (saved env pair_flags paired paired-IsPaired)
unfolding print_known trim_space bytes_eq
saved_again = refl

locked-IsFaithful : IsFaithful (some locked)
locked-IsFaithful keyring device found before after e trimmed nonempty stored =
    refused keyring (same_keyring keyring e) stored
  where
    same_keyring :
        (k : Keyring (Unit {0}))
        → ◌≡◌ {A = Option (Keyring (Unit {0}))} (some locked) (some k)
        → locked ≡ k
    same_keyring k same = cc

    not_stored : ◌≡◌ {A = Option Bytes} (some (codes "locked")) none → ⊥
    not_stored same = cc

    refused :
        (k : Keyring (Unit {0}))
        → locked ≡ k
        → k.store device found before ≡ (none, after)
        → k.load device after ≡ ok found
    refused k same kept = rw (← same) (absurd (not_stored (ap (λ r. r.0) (rw (← same) at kept))))

token_trimmed : trim_space token ≡ token
unfolding trim_space
token_trimmed = refl

origin_again : parse_known (trim_space (print_known school_url)) ≡ some school_url
unfolding parse_known print_known trim_space bytes_eq
origin_again = refl

base_again : parse_known (trim_space (print_known local_url)) ≡ some local_url
unfolding parse_known print_known trim_space bytes_eq
base_again = refl

empty_unknown : (url : Url) → parse_known [] ≡ some url → url.path ≡ []
unfolding parse_known bytes_eq
empty_unknown url e = absurd (cc)

store_opens : open_store env [] ≡ none
unfolding open_store store_path default_directory bytes_eq trim_space
store_opens = refl

start-pair_example :
    (start env [] (calm env paired)).0
    ≡ ok ((saved env pair_flags paired paired-IsPaired, token), local_url)
start-pair_example =
    start-pair env pair_flags paired paired-IsPaired [] [] refl store_opens saved_again
      locked-IsFaithful token_trimmed origin_again base_again (λ url path raw. refl) empty_unknown
