-- ===== src/Protocol/Message.antt =====
-- protocol.go: the wire messages, and the constructors `NewHello` and `ErrorResponse`.
use edukod_companion.Base.{
  ℕ, ◌-◌, ◌/◌, ◌≡◌, refl, Bool, true, [], Bytes, codes, if◌then◌else◌, Bool-cases, inl, inr,
}
use edukod_companion.Protocol.Id.{matches_id}

abbrev pub version : ℕ
version = 1

pub record Capabilities : Type 0 where
  pub responses : Bool
  pub chat_completions : Bool
  pub models : Bool
  pub max_request_bytes : ℕ
  pub max_response_bytes : ℕ
  pub max_concurrency : ℕ

pub record Hello : Type 0 where
  pub type : Bytes
  pub protocol_version : ℕ
  pub device_id : Bytes
  pub device_name : Bytes
  pub capabilities : Capabilities

-- An int64; `negsuc n` is -(n + 1).
pub data ℤ : Type 0 where
  pos : ℕ → ℤ
  negsuc : ℕ → ℤ

pub record Request : Type 0 where
  pub type : Bytes
  pub id : Bytes
  pub method : Bytes
  pub path : Bytes
  pub deadline_unix_ms : ℤ
  pub body : Bytes

pub record Cancel : Type 0 where
  pub type : Bytes
  pub id : Bytes

pub record Ping : Type 0 where
  pub type : Bytes
  pub id : Bytes

pub record Response : Type 0 where
  pub type : Bytes
  pub id : Bytes
  pub status : ℕ
  pub content_type : Bytes
  pub body : Bytes
  pub error_code : Bytes
  pub error_message : Bytes
  pub duration_ms : ℕ
  pub completed_unix_ms : ℕ

unfoldable pub new_hello : Bytes → Bytes → ℕ → ℕ → ℕ → Hello
new_hello device_id device_name max_request max_response concurrency = record {
  type = codes "hello";
  protocol_version = version;
  device_id = device_id;
  device_name = device_name;
  capabilities = record {
    responses = true;
    chat_completions = true;
    models = true;
    max_request_bytes = max_request;
    max_response_bytes = max_response;
    max_concurrency = concurrency;
  };
}

-- Times are nanoseconds; `time.Since(t).Milliseconds()` at `now`, and `time.Now().UnixMilli()`.
abbrev pub ns_per_ms : ℕ
ns_per_ms = 1000000

abbrev pub since_ms : ℕ → ℕ → ℕ
since_ms now t = (now - t) / ns_per_ms

abbrev pub response_type : Bytes
response_type = codes "response"

-- `now` is the time at which the response is made.
unfoldable pub error_response : Bytes → Bytes → Bytes → ℕ → ℕ → Response
error_response id error_code message started now = record {
  type = response_type;
  id = if matches_id id then id else codes "invalid";
  status = 0;
  content_type = [];
  body = [];
  error_code = error_code;
  error_message = message;
  duration_ms = since_ms now started;
  completed_unix_ms = now / ns_per_ms;
}

-- Every error response carries a well-formed request id, the caller's own if that is one.
pub error_response-id :
    (id error_code message : Bytes) (started now : ℕ)
    → (matches_id (error_response id error_code message started now).id ≡ true)
      × (matches_id id ≡ true → (error_response id error_code message started now).id ≡ id)
unfolding error_response matches_id
error_response-id id error_code message started now = elim (Bool-cases (matches_id id)) [
  | inl good ↦ (rw good good, λ _. rw good refl)
  | inr bad ↦ (rw bad refl, λ good. cc)
]
