-- ===== src/Protocol/Tests.antt =====
-- Runs of the protocol's checks, and the theorems at concrete messages.
use edukod_companion.Base.{
  ◌≡◌, refl, ◌↔◌, true, Option, none, some, List, [], ◌∷◌, Bytes, codes, bytes_eq, trim_space,
  to_upper, Unicode, if◌then◌else◌,
}
use edukod_companion.Protocol.Id.{matches_id, matches_id_iff, Matches, request_id_pattern}
use edukod_companion.Protocol.Message.{pos, Request}
use edukod_companion.Protocol.Validate.{
  Json, member, validate_request, type_request, models_path, responses_path, method_get,
  method_post, null_text, stream_key, streaming_unsupported, models_get_only,
}
use edukod_companion.Protocol.Validate.Allowed.{IsAllowed, validate_request_iff}

-- A decoder that knows the three bodies of these tests.
abbrev plain_body : Bytes
plain_body = codes "{}"

abbrev stream_body : Bytes
stream_body = codes "{\"stream\":true}"

decode_object : Bytes → Option (Option (List (Bytes × Bytes)))
unfolding bytes_eq
decode_object body =
    if bytes_eq body plain_body
    then some (some [])
    else if bytes_eq body stream_body
    then some (some ((codes "stream", codes "true") ∷ []))
    else if bytes_eq body (codes "null")
    then some none
    else none

abbrev json : Json
json = record {
  valid = λ _. true;
  decode_object = decode_object;
  decode_bool = λ raw. if bytes_eq raw (codes "true") then some true else none;
  decode_type = λ _. none;
  decode_request = λ _. none;
  decode_cancel = λ _. none;
  decode_ping = λ _. none;
}

abbrev unicode : Unicode
unicode = record { upper = λ s. s; lower = λ s. s }

abbrev request : Bytes → Bytes → Bytes → Request
request method path body = record {
  type = codes "request";
  id = codes "req-1";
  method = method;
  path = path;
  deadline_unix_ms = pos 0;
  body = body;
}

abbrev models_request : Request
models_request = request (codes " get\t") (codes "/v1/models") []

models_ok : validate_request json unicode models_request 0 100 ≡ none
unfolding validate_request matches_id bytes_eq type_request models_path method_get to_upper
    trim_space
models_ok = refl

models_post :
    validate_request json unicode (request (codes "POST") (codes "/v1/models") []) 0 100
    ≡ some models_get_only
unfolding validate_request matches_id bytes_eq type_request models_path method_get to_upper
    trim_space
models_post = refl

stream_refused :
    validate_request json unicode (request (codes "POST") (codes "/v1/responses") stream_body) 0 100
    ≡ some streaming_unsupported
unfolding validate_request matches_id bytes_eq type_request models_path responses_path method_post
    to_upper trim_space null_text decode_object member stream_key
stream_refused = refl

validate_request_iff_example :
    (validate_request json unicode models_request 0 100 ≡ none)
    ↔ IsAllowed json unicode models_request 0 100
validate_request_iff_example = validate_request_iff json unicode models_request 0 100

matches_id_iff_example :
    (matches_id (codes "req-1") ≡ true) ↔ Matches request_id_pattern (codes "req-1")
matches_id_iff_example = matches_id_iff (codes "req-1")
