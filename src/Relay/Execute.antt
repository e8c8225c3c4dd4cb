-- ===== src/Relay/Execute.antt =====
-- relay.go: `execute` and the classification of a forwarder's error.
use edukod_companion.Base.{
  ℕ, ◌/◌, ◌≡◌, ◌≢◌, refl, Bool, true, false, not, ◌||◌, Option, none, some, [], arith, Bytes, codes,
  has_prefix, contains, if◌then◌else◌, Unicode, to_lower, Result, ok, err, ◌↔◌,
}
use edukod_companion.Protocol.Id.{matches_id}
use edukod_companion.Protocol.Message.{
  Request, Response, response_type, error_response, since_ms, ns_per_ms,
}

-- What the program asks of a Go error: its text, `errors.Is` with the two context errors, a
-- `WasDispatched` method if one is in its chain, and a `net.Error` that says it timed out.
pub record GoError : Type 0 where
  pub text : Bytes
  pub is_canceled : Bool
  pub is_deadline_exceeded : Bool
  pub was_dispatched : Option Bool
  pub is_timeout : Bool

-- `errors.New`.
abbrev pub errors_new : Bytes → GoError
errors_new text = record {
  text = text;
  is_canceled = false;
  is_deadline_exceeded = false;
  was_dispatched = none;
  is_timeout = false;
}

-- The results of a `Forwarder` that did not fail.
pub record Reply : Type 0 where
  pub status : ℕ
  pub content_type : Bytes
  pub body : Bytes

pub data Code : Type 0 where
  canceled local_predispatch_unavailable timeout local_invalid_response local_unavailable : Code

unfoldable pub code_text : Code → Bytes
code_text canceled = codes "canceled"
code_text local_predispatch_unavailable = codes "local_predispatch_unavailable"
code_text timeout = codes "timeout"
code_text local_invalid_response = codes "local_invalid_response"
code_text local_unavailable = codes "local_unavailable"

abbrev pub not_dispatched : Option Bool → Bool
not_dispatched none = false
not_dispatched (some dispatched) = not dispatched

unfoldable pub mentions_bad_response : Bytes → Bool
mentions_bad_response text = contains text (codes "non-JSON") || contains text (codes "exceeds")

-- The chain of tests of `execute`.
unfoldable pub classify : GoError → Code
classify e =
    if e.is_canceled
    then canceled
    else if not_dispatched e.was_dispatched
    then local_predispatch_unavailable
    else if e.is_deadline_exceeded || e.is_timeout
    then timeout
    else if mentions_bad_response e.text
    then local_invalid_response
    else local_unavailable

unfoldable pub message_text : Code → GoError → Bytes
message_text canceled e = codes "request was canceled"
message_text local_predispatch_unavailable e = codes "local model endpoint is not reachable"
message_text timeout e = codes "local model request timed out"
message_text local_invalid_response e = e.text
message_text local_unavailable e = codes "local model endpoint is unavailable"

unfoldable pub json_type : Bytes
json_type = codes "application/json"

code_text-ne-nil : (c : Code) → code_text c ≢ []
unfolding code_text
code_text-ne-nil canceled h = cc
code_text-ne-nil local_predispatch_unavailable h = cc
code_text-ne-nil timeout h = cc
code_text-ne-nil local_invalid_response h = cc
code_text-ne-nil local_unavailable h = cc

module _ (unicode : Unicode) where
  unfoldable pub normal_content_type : Bytes → Bytes
  normal_content_type t = if has_prefix (to_lower unicode t) json_type then t else json_type

  -- `started` and `now` are the times at which the job was made and answered.
  unfoldable pub execute : Request → ℕ → Result GoError Reply → ℕ → Response
  unfolding classify message_text normal_content_type
  execute request started (err e) now =
      error_response request.id (code_text (classify e)) (message_text (classify e) e) started now
  execute request started (ok reply) now = record {
    type = response_type;
    id = request.id;
    status = reply.status;
    content_type = normal_content_type reply.content_type;
    body = reply.body;
    error_code = [];
    error_message = [];
    duration_ms = since_ms now started;
    completed_unix_ms = now / ns_per_ms;
  }

  -- The response to a request with a well-formed id carries that id, whether the forwarder fails
  -- or not, and it reports an error exactly if the forwarder failed.
  pub execute-id :
      (r : Request) (started now : ℕ) (result : Result GoError Reply)
      → matches_id r.id ≡ true
      → ((execute r started result now).id ≡ r.id)
        × (((execute r started result now).error_code ≡ [])
            ↔ ((reply : Reply) × (result ≡ ok reply)))
  unfolding execute error_response
  execute-id r started now (ok reply) h = (refl, (λ _. (reply, refl), λ _. refl))
  execute-id r started now (err e) h =
      (rw h, (λ p. absurd (code_text-ne-nil (classify e) p), λ q. cc (q.1)))

-- A caller is told that the request never left only if the transport said so, and the request
-- was not canceled.
pub predispatch_honest :
    (e : GoError)
    → (classify e ≡ local_predispatch_unavailable)
      ↔ ((e.is_canceled ≡ false) × (e.was_dispatched ≡ some false))
unfolding classify
predispatch_honest e = (λ h. ground arith, λ h. ground arith)
