-- ===== src/Gateway/Client.antt =====
-- client.go: `ValidateSchoolOrigin`, `ValidateWebSocketURL`, `Enroll` and `Revoke`.
pub mod Checks
pub mod Guarantees
pub mod Revoked
pub mod Accepted
use edukod_companion.Base.{
  ℕ, ◌*◌, ◌^◌, ◌==◌, Bool, true, false, not, ◌&&◌, ◌||◌, Option, none, some, List, [], ◌∷◌, ◌++◌,
  Bytes, codes, bytes_eq, contains_any, trim_space, length, ltb, if◌then◌else◌, Result, ok, err,
  Fallible, pure, fail_if, ◌>>=◌, ◌>>◌, take,
}
use edukod_companion.Base.Url.{Url, Urls, has_extras}
use edukod_companion.Protocol.Message.{Capabilities, version}
use edukod_companion.Gateway.Identity.{contains_control, valid_device_id}

pub data Method : Type 0 where
  post delete : Method

pub record HttpRequest : Type 0 where
  pub method : Method
  pub url : Url
  pub authorization : Option Bytes
  pub body : Bytes

pub record HttpResponse : Type 0 where
  pub status : ℕ
  pub body : Bytes

pub record Enrollment : Type 0 where
  pub device_id : Bytes
  pub device_token : Bytes
  pub web_socket_url : Bytes

pub record EnrollmentRequest : Type 0 where
  pub pairing_code : Bytes
  pub device_name : Bytes
  pub protocol_version : ℕ
  pub capabilities : Capabilities

pub data GatewayError : Type 0 where
  unparsable_origin not_https_origin origin_not_plain origin_with_path : GatewayError
  unparsable_socket foreign_socket unexpected_socket : GatewayError
  bad_pairing_code bad_device_name not_encodable : GatewayError
  no_answer : Bytes → GatewayError
  answer_too_large invalid_answer trailing_answer incomplete_credentials bad_credential :
      GatewayError
  rejected : ℕ → GatewayError

pub data Decoded : Type 0 where
  malformed trailing : Decoded
  whole : Enrollment → Decoded

-- What the program asks of net/url, encoding/json and of an HTTP exchange, in which an error while
-- the answer's body is read counts as no answer.
pub record Network : Type 0 where
  pub urls : Urls
  pub encode : EnrollmentRequest → Option Bytes
  pub decode : Bytes → Decoded
  pub exchange : HttpRequest → Result Bytes HttpResponse

unfoldable pub enrollment_path : Bytes
enrollment_path = codes "/api/ai/companion/v1/enroll"

unfoldable pub web_socket_path : Bytes
web_socket_path = codes "/api/ai/companion/v1/ws"

unfoldable pub device_path : Bytes
device_path = codes "/api/ai/companion/v1/device"

unfoldable pub https : Bytes
https = codes "https"

unfoldable pub wss : Bytes
wss = codes "wss"

abbrev pub capabilities : Capabilities
capabilities = record {
  responses = true;
  chat_completions = true;
  models = true;
  max_request_bytes = 8 * 2 ^ 20;
  max_response_bytes = 16 * 2 ^ 20;
  max_concurrency = 4;
}

-- The state of a call is what has been sent.
abbrev pub Call : Type 0 → Type 0
Call = Fallible (List HttpRequest) GatewayError

abbrev pub fail : {A : Type 0} → GatewayError → Call A
fail e sent = (err e, sent)

abbrev pub enroll_request : Url → Bytes → HttpRequest
enroll_request origin payload = record {
  method = post;
  url = record origin { path = enrollment_path };
  authorization = none;
  body = payload;
}

abbrev pub revoke_request : Url → Bytes → HttpRequest
revoke_request origin device_token = record {
  method = delete;
  url = record origin { path = device_path };
  authorization = some (codes "Bearer " ++ device_token);
  body = [];
}

module _ (network : Network) where
  check_origin : Option Url → Call Url
  check_origin none = fail unparsable_origin
  check_origin (some url) = do
    fail_if (not (bytes_eq url.scheme https) || bytes_eq (network.urls.hostname url) [])
        not_https_origin
    fail_if (has_extras url) origin_not_plain
    fail_if (not (bytes_eq url.path []) && not (bytes_eq url.path (b'/' ∷ []))) origin_with_path
    pure (record url { path = []; raw_path = [] })

  unfoldable pub validate_school_origin : Bytes → Call Url
  unfolding check_origin
  validate_school_origin raw = check_origin (network.urls.parse (trim_space raw))

  check_socket : Option Url → Url → Call Url
  check_socket none origin = fail unparsable_socket
  check_socket (some url) origin = do
    fail_if (not (bytes_eq url.scheme wss) || not (bytes_eq url.host origin.host)) foreign_socket
    fail_if (not (bytes_eq url.path web_socket_path) || has_extras url) unexpected_socket
    pure url

  unfoldable pub validate_web_socket_url : Bytes → Url → Call Url
  unfolding check_socket
  validate_web_socket_url raw origin = check_socket (network.urls.parse (trim_space raw)) origin

  answer : Result Bytes HttpResponse → Call HttpResponse
  answer (err text) = fail (no_answer text)
  answer (ok response) = pure response

  -- `httpClient.Do`, which makes an error of a redirect.
  unfoldable pub send : HttpRequest → Call HttpResponse
  unfolding answer
  send request sent = answer (network.exchange request) (sent ++ request ∷ [])

  encoded : Option Bytes → Call Bytes
  encoded none = fail not_encodable
  encoded (some payload) = pure payload

  decoded : Decoded → Call Enrollment
  decoded malformed = fail invalid_answer
  decoded trailing = fail trailing_answer
  decoded (whole enrollment) = pure enrollment

  with_socket : Url → Enrollment → Enrollment
  with_socket origin enrollment =
      if bytes_eq enrollment.web_socket_url []
      then record enrollment {
        web_socket_url = network.urls.text (record origin { scheme = wss; path = web_socket_path });
      }
      else enrollment

  bad_code : Bytes → Bool
  bad_code code =
      ltb (length code) 8 || ltb 256 (length code) || contains_any code (codes " \t\r\n")

  bad_name : Bytes → Bool
  bad_name name = length name == 0 || ltb 80 (length name) || contains_control name

  -- `Enroll` from the answer on.
  unfoldable pub accept : Url → HttpResponse → Call Enrollment
  unfolding decoded with_socket
  accept origin response = do
    fail_if (ltb 65536 (length (take 65537 response.body))) answer_too_large
    fail_if (not (response.status == 201) && not (response.status == 200))
        (rejected response.status)
    enrollment ← decoded (network.decode (take 65537 response.body))
    fail_if
        (not (valid_device_id enrollment.device_id)
          || ltb (length enrollment.device_token) 32
          || ltb 4096 (length enrollment.device_token))
        incomplete_credentials
    socket ← validate_web_socket_url (with_socket origin enrollment).web_socket_url origin
    pure (with_socket origin enrollment)

  unfoldable pub enroll : Bytes → Bytes → Bytes → Call Enrollment
  unfolding encoded bad_code bad_name
  enroll school_origin pairing_code device_name = do
    origin ← validate_school_origin school_origin
    fail_if (bad_code (trim_space pairing_code)) bad_pairing_code
    fail_if (bad_name (trim_space device_name)) bad_device_name
    payload ← encoded (
        network.encode (record {
          pairing_code = trim_space pairing_code;
          device_name = trim_space device_name;
          protocol_version = version;
          capabilities = capabilities;
        }))
    response ← send (enroll_request origin payload)
    accept origin response

  unfoldable pub revoke : Bytes → Bytes → Call (Unit {0})
  revoke school_origin device_token = do
    origin ← validate_school_origin school_origin
    fail_if (bytes_eq (trim_space device_token) [] || contains_any device_token (codes "\r\n"))
        bad_credential
    response ← send (revoke_request origin device_token)
    fail_if
        (not (response.status == 200)
          && not (response.status == 204)
          && not (response.status == 404))
        (rejected response.status)
    pure tt
