-- ===== src/LocalApi/Tests.antt =====
-- Runs of the local client, and its theorems at concrete requests.
use edukod_companion.Base.{
  ℕ, ◌≡◌, refl, true, false, Option, none, some, List, [], ◌∷◌, Bytes, codes, Result, ok, err,
  Unicode, to_upper, trim_space, bytes_eq,
}
use edukod_companion.Protocol.Id.{matches_id}
use edukod_companion.Protocol.Message.{pos, Request}
use edukod_companion.Protocol.Validate.{
  Json, validate_request, type_request, models_path, method_get,
}
use edukod_companion.Relay.Execute.{GoError, json_type, errors_new, Reply, classify}
use edukod_companion.LocalApi.Loopback.{
  ensure_loopback_host, is_loopback, loopback_dialer, outside_loopback, AllLoopback,
  loopback_dialer-AllLoopback,
}
use edukod_companion.Base.Url.{Url, Urls, has_extras}
use edukod_companion.LocalApi.Address.{
  IsLocalBase, IsAcceptedPath, validate_base_url, validate_base_url-IsLocalBase, http, v1_path,
}
use edukod_companion.LocalApi.Forward.{
  LocalRequest, Outcome, phase_after, failed, answered, max_request, transport_error, forward,
  models, IsUnsent, IsPassable, forward-IsUnsent, forward-IsPassable,
}

abbrev json : Json
json = record {
  valid = λ _. true;
  decode_object = λ _. none;
  decode_bool = λ _. none;
  decode_type = λ _. none;
  decode_request = λ _. none;
  decode_cancel = λ _. none;
  decode_ping = λ _. none;
}

abbrev unicode : Unicode
unicode = record { upper = λ s. s; lower = λ s. s }

abbrev no_error : LocalRequest → Option Bytes
no_error _ = none

abbrev request : Request
request = record {
  type = codes "request";
  id = codes "r1";
  method = codes "get";
  path = codes "/v1/models";
  deadline_unix_ms = pos 0;
  body = [];
}

abbrev refusing : LocalRequest → Outcome
refusing _ = failed (errors_new (codes "connection refused")) []

abbrev answering : LocalRequest → Outcome
answering _ = answered 200 [] (codes "{}")

abbrev refused : GoError
refused = transport_error (errors_new (codes "connection refused")) false

abbrev listing : Reply
listing = record { status = 200; content_type = codes "application/json"; body = codes "{}" }

forward_unsent : forward json unicode 100 no_error refusing request 7 ≡ err refused
unfolding forward phase_after validate_request matches_id bytes_eq type_request models_path
    method_get to_upper trim_space
forward_unsent = refl

forward_answered : forward json unicode 100 no_error answering request 7 ≡ ok listing
unfolding forward validate_request matches_id bytes_eq type_request models_path method_get to_upper
    trim_space json_type
forward_answered = refl

models_answered : models json unicode 100 no_error answering 7 ≡ ok (codes "{}")
unfolding models forward validate_request matches_id bytes_eq type_request models_path method_get
    to_upper trim_space
models_answered = refl

forward-IsUnsent_example : IsUnsent json unicode 100 no_error refusing request
unfolding classify
forward-IsUnsent_example =
    forward-IsUnsent json unicode 100 no_error refusing request 7 refused forward_unsent refl

forward-IsPassable_example :
    (validate_request json unicode request 7 max_request ≡ none)
    × IsPassable json unicode 100 no_error answering listing
forward-IsPassable_example =
    forward-IsPassable json unicode 100 no_error answering request 7 listing forward_answered

abbrev local_ip : Bytes
local_ip = 127 ∷ 0 ∷ 0 ∷ 1 ∷ []

abbrev remote_ip : Bytes
remote_ip = 10 ∷ 0 ∷ 0 ∷ 1 ∷ []

abbrev local_split : Result Bytes (Bytes × Bytes)
local_split = ok (codes "localhost", codes "8080")

abbrev rebinding : Bytes → Result Bytes (List Bytes)
rebinding host = ok (local_ip ∷ remote_ip ∷ [])

abbrev refuse_dial : Bytes → Bytes → Result Bytes ℕ
refuse_dial ip port = err (codes "refused")

-- A name that resolves to a loopback address and to another is refused at the other.
rebound :
    loopback_dialer refuse_dial local_split rebinding []
    ≡ (err (outside_loopback remote_ip), local_ip ∷ [])
unfolding loopback_dialer is_loopback
rebound = refl

loopback_dialer-AllLoopback_example :
    AllLoopback refuse_dial (loopback_dialer refuse_dial local_split rebinding []).1
loopback_dialer-AllLoopback_example = loopback_dialer-AllLoopback refuse_dial local_split rebinding

abbrev local_url : Url
local_url = record {
  scheme = codes "http";
  host = codes "127.0.0.1";
  user = false;
  path = codes "/v1";
  raw_path = [];
  raw_query = [];
  fragment = [];
}

-- The path may be left out.
abbrev urls : Urls
urls = record {
  parse = λ text. some (record local_url { path = [] });
  text = λ url. codes "http://127.0.0.1/v1";
  hostname = λ url. url.host;
  port = λ url. [];
}

resolve_local : Bytes → Result Bytes (List Bytes)
resolve_local host = ok ((127 ∷ 0 ∷ 0 ∷ 1 ∷ []) ∷ [])

path_filled : validate_base_url urls resolve_local (codes "http://127.0.0.1") ≡ ok local_url
unfolding validate_base_url resolve_local is_loopback ensure_loopback_host http v1_path has_extras
    bytes_eq
path_filled = refl

validate_base_url-IsLocalBase_example :
    IsLocalBase urls resolve_local local_url
    × ((url : Url) × (urls.parse (trim_space (codes "http://127.0.0.1")) ≡ some url)
        × IsAcceptedPath urls resolve_local url.path
        × (local_url ≡ record url { path = v1_path; raw_path = [] }))
validate_base_url-IsLocalBase_example =
    validate_base_url-IsLocalBase urls resolve_local (codes "http://127.0.0.1") local_url
      path_filled
