-- ===== src/Protocol/Validate.antt =====
-- protocol.go: `ValidateRequest` and `ValidateCancel`, against what the protocol allows.
pub mod Allowed
use edukod_companion.Base.{
  ℕ, zero, suc, ◌+◌, ◌*◌, ◌≤◌, ◌<◌, ◌≡◌, refl, ◌≢◌, ◌↔◌, ◌⊎◌, inl, inr, Bool, true, false, not,
  ◌&&◌, ◌||◌, Option, none, some, List, [], ◌∷◌, ◌++◌, decimal, arith, Bytes, codes, length, ltb,
  leb, ◌==◌, if◌then◌else◌, bytes_eq, bytes_eq_iff, Unicode, to_upper, trim_space, Bool-cases,
}
use edukod_companion.Protocol.Id.{matches_id, matches_id_iff, Matches, request_id_pattern}
use edukod_companion.Protocol.Message.{ℤ, pos, negsuc, Request, Cancel, Ping, ns_per_ms}

-- One constructor for each error text.
pub data RequestError : Type 0 where
  wrong_type : RequestError
  bad_id : RequestError
  body_too_large : ℕ → RequestError
  bad_json : RequestError
  models_get_only : RequestError
  models_no_body : RequestError
  inference_post_only : RequestError
  inference_needs_body : RequestError
  body_not_object : RequestError
  stream_not_bool : RequestError
  streaming_unsupported : RequestError
  path_not_allowed : RequestError
  deadline_expired : RequestError
  deadline_too_far : RequestError

-- `err.Error()`.
unfoldable pub error_text : RequestError → Bytes
error_text wrong_type = codes "message type must be request"
error_text bad_id = codes "request id is invalid"
error_text (body_too_large max_body) =
    codes "request body exceeds " ++ decimal max_body ++ codes " bytes"
error_text bad_json = codes "request body must be valid JSON"
error_text models_get_only = codes "models endpoint only allows GET"
error_text models_no_body = codes "models request must not contain a body"
error_text inference_post_only = codes "inference endpoints only allow POST"
error_text inference_needs_body = codes "inference request requires a JSON body"
error_text body_not_object = codes "inference request body must be a JSON object"
error_text stream_not_bool = codes "stream must be a boolean"
error_text streaming_unsupported = codes "streaming is not supported by companion protocol v1"
error_text path_not_allowed = codes "request path is not allowed"
error_text deadline_expired = codes "request deadline has expired"
error_text deadline_too_far = codes "request deadline is too far in the future"

-- What the program asks of encoding/json. A JSON object is the list of its members, in which
-- the first with a key counts; `some none` is the nil map that `null` decodes to.
pub record Json : Type 0 where
  pub valid : Bytes → Bool
  pub decode_object : Bytes → Option (Option (List (Bytes × Bytes)))
  pub decode_bool : Bytes → Option Bool
  pub decode_type : Bytes → Option Bytes
  pub decode_request : Bytes → Option Request
  pub decode_cancel : Bytes → Option Cancel
  pub decode_ping : Bytes → Option Ping

unfoldable pub member : Bytes → List (Bytes × Bytes) → Option Bytes
member k [] = none
member k ((j, v) ∷ m) = if bytes_eq j k then some v else member k m

unfoldable pub type_request : Bytes
type_request = codes "request"

unfoldable pub models_path : Bytes
models_path = codes "/v1/models"

unfoldable pub responses_path : Bytes
responses_path = codes "/v1/responses"

unfoldable pub chat_path : Bytes
chat_path = codes "/v1/chat/completions"

unfoldable pub method_get : Bytes
method_get = codes "GET"

unfoldable pub method_post : Bytes
method_post = codes "POST"

unfoldable pub null_text : Bytes
null_text = codes "null"

unfoldable pub stream_key : Bytes
stream_key = codes "stream"

-- Does `time.UnixMilli(ms)` come after a time in nanoseconds?
unfoldable pub after : ℤ → ℕ → Bool
after (pos ms) t = ltb t (ms * ns_per_ms)
after (negsuc ms) t = false

abbrev pub five_minutes : ℕ
five_minutes = 300 * 1000 * ns_per_ms

abbrev pub is_zero : ℤ → Bool
is_zero (pos n) = n == 0
is_zero (negsuc n) = false

unfoldable pub check_deadline : ℤ → ℕ → Option RequestError
unfolding after
check_deadline deadline now =
    if is_zero deadline
    then none
    else if not (after deadline now)
    then some deadline_expired
    else if after deadline (now + five_minutes)
    then some deadline_too_far
    else none

module _ (json : Json) (unicode : Unicode) where
  -- The request's method as `ValidateRequest` reads it.
  abbrev pub normal_method : Request → Bytes
  normal_method request = to_upper unicode (trim_space request.method)

  pub check_stream_value : Option Bool → Option RequestError
  check_stream_value none = some stream_not_bool
  check_stream_value (some true) = some streaming_unsupported
  check_stream_value (some false) = none

  pub check_stream : Option Bytes → Option RequestError
  unfolding check_stream_value
  check_stream none = none
  check_stream (some raw) = check_stream_value (json.decode_bool raw)

  pub check_options : Option (Option (List (Bytes × Bytes))) → Option RequestError
  unfolding check_stream
  check_options none = some body_not_object
  check_options (some none) = some body_not_object
  check_options (some (some options)) = check_stream (member stream_key options)

  pub check_models : Request → Option RequestError
  check_models request =
      if not (bytes_eq (normal_method request) method_get)
      then some models_get_only
      else if not (length request.body == 0) && not (bytes_eq request.body null_text)
      then some models_no_body
      else none

  pub check_inference : Request → Option RequestError
  unfolding check_options
  check_inference request =
      if not (bytes_eq (normal_method request) method_post)
      then some inference_post_only
      else if length request.body == 0 || bytes_eq request.body null_text
      then some inference_needs_body
      else check_options (json.decode_object request.body)

  pub check_path : Request → Option RequestError
  unfolding check_models check_inference
  check_path request =
      if bytes_eq request.path models_path
      then check_models request
      else if bytes_eq request.path responses_path || bytes_eq request.path chat_path
      then check_inference request
      else some path_not_allowed

  -- The first error of two checks made one after the other.
  abbrev pub and_then : Option RequestError → Option RequestError → Option RequestError
  and_then (some e) next = some e
  and_then none next = next

  unfoldable pub validate_request : Request → ℕ → ℕ → Option RequestError
  unfolding check_path check_deadline
  validate_request request now max_body =
      if not (bytes_eq request.type type_request)
      then some wrong_type
      else if not (matches_id request.id)
      then some bad_id
      else if ltb max_body (length request.body)
      then some (body_too_large max_body)
      else if ltb 0 (length request.body) && not (json.valid request.body)
      then some bad_json
      else and_then (check_path request) (check_deadline request.deadline_unix_ms now)

unfoldable pub type_cancel : Bytes
type_cancel = codes "cancel"

-- `ValidateCancel` returns nil.
unfoldable pub validate_cancel : Cancel → Bool
validate_cancel cancel = bytes_eq cancel.type type_cancel && matches_id cancel.id
