-- ===== src/LocalApi/Forward.antt =====
-- client.go: `Forward` and `Models`, with the errors that the relay classifies.
use edukod_companion.Base.{
  ap, ℕ, ◌+◌, ◌*◌, ◌^◌, ◌==◌, ◌≤◌, ◌<◌, List, ◌∷◌, ◌≡◌, ◌≢◌, refl, Bool, true, false, not, ◌||◌,
  Option, none, some, [], ◌++◌, Bytes, bytes_eq, bytes_eq_iff, codes, decimal, length, take, ltb,
  leb, if◌then◌else◌, Result, ok, err, Unicode, to_upper, arith, Bool-cases, inl, inr,
}
use edukod_companion.Protocol.Message.{pos, Request}
use edukod_companion.Protocol.Validate.{Json, validate_request, error_text, RequestError}
use edukod_companion.Relay.Execute.{
  GoError, errors_new, Reply, json_type, local_predispatch_unavailable, classify,
  predispatch_honest,
}

pub record LocalRequest : Type 0 where
  pub method : Bytes
  pub path : Bytes
  pub body : Option Bytes

-- What `httpClient.Do` and the reading of the answer come to. A failure has the calls of
-- `WroteRequest` that net/http made before it, one after the other, each with its `info.Err`.
pub data Outcome : Type 0 where
  failed : GoError → List (Option Bytes) → Outcome
  cut_off : GoError → Outcome
  answered : ℕ → Bytes → Bytes → Outcome

-- `TransportError`: its text and its chain are those of the error inside.
abbrev pub transport_error : GoError → Bool → GoError
transport_error e written = record e { was_dispatched = some written }

-- The callback `WroteRequest`, with the phase that it stores.
write_phase : Option Bytes → ℕ
write_phase none = 1
write_phase (some text) = 2

-- `requestWritePhase` after the calls.
unfoldable pub phase_after : ℕ → List (Option Bytes) → ℕ
unfolding write_phase
phase_after phase [] = phase
phase_after phase (info ∷ later) = phase_after (write_phase info) later

abbrev pub max_request : ℕ
max_request = 8 * 2 ^ 20

unfoldable pub too_large_text : ℕ → Bytes
too_large_text max_response =
    codes "local model response exceeds " ++ decimal max_response ++ codes " bytes"

-- Once it was called, the phase is not 0 again.
phase_positive : (phase : ℕ) (trace : List (Option Bytes)) → 0 < phase → 0 < phase_after phase trace
unfolding phase_after
phase_positive phase [] h = h
phase_positive phase (none ∷ later) h = phase_positive 1 later (omega arith)
phase_positive phase (some text ∷ later) h = phase_positive 2 later (omega arith)

phase_set :
    (phase : ℕ) (info : Option Bytes) (later : List (Option Bytes))
    → 0 < phase_after phase (info ∷ later)
unfolding phase_after
phase_set phase none later = phase_positive 1 later (omega arith)
phase_set phase (some text) later = phase_positive 2 later (omega arith)

-- `new_request` gives the error of `http.NewRequestWithContext`, which is none of net/http's
-- transport; `transport` is the exchange.
module _ (json : Json) (unicode : Unicode) (max_response : ℕ)
    (new_request : LocalRequest → Option Bytes) (transport : LocalRequest → Outcome) where
  abbrev pub local_request : Request → LocalRequest
  local_request request = record {
    method = to_upper unicode request.method;
    path = request.path;
    body = if length request.body == 0 then none else some request.body;
  }

  check_payload : ℕ → Bytes → Bytes → Result GoError Reply
  check_payload status content_type payload =
      if ltb max_response (length payload)
      then err (errors_new (too_large_text max_response))
      else if length payload == 0 || not (json.valid payload)
      then err (errors_new (codes "local model returned a non-JSON response"))
      else ok (record {
        status = status;
        content_type = if bytes_eq content_type [] then json_type else content_type;
        body = payload;
      })

  after_exchange : Outcome → Result GoError Reply
  unfolding check_payload
  after_exchange (failed e trace) = err (transport_error e (not (phase_after 0 trace == 0)))
  after_exchange (cut_off e) = err (transport_error e true)
  after_exchange (answered status content_type body) =
      check_payload status content_type (take (max_response + 1) body)

  after_request : Option Bytes → LocalRequest → Result GoError Reply
  unfolding after_exchange
  after_request (some text) local = err (errors_new text)
  after_request none local = after_exchange (transport local)

  after_validation : Option RequestError → Request → Result GoError Reply
  unfolding after_request
  after_validation (some e) request = err (errors_new (error_text e))
  after_validation none request =
      after_request (new_request (local_request request)) (local_request request)

  -- `now` is `time.Now()`.
  unfoldable pub forward : Request → ℕ → Result GoError Reply
  unfolding after_validation
  forward request now =
      after_validation (validate_request json unicode request now max_request) request

  models_reply : Result GoError Reply → Result GoError Bytes
  models_reply (err e) = err e
  models_reply (ok reply) =
      if ltb reply.status 200 || leb 300 reply.status
      then err (errors_new (codes "local model endpoint returned HTTP " ++ decimal reply.status))
      else ok reply.body

  unfoldable pub models : ℕ → Result GoError Bytes
  unfolding models_reply
  models now = models_reply (
      forward
        (record {
          type = codes "request";
          id = codes "models";
          method = codes "GET";
          path = codes "/v1/models";
          deadline_unix_ms = pos 0;
          body = [];
        })
        now)

  -- The exchange failed, and net/http had not called `WroteRequest` for it, as it does when it has
  -- written the request, or a part of it.
  abbrev pub IsUnsent : Request → Type 0
  IsUnsent request = (e : GoError) × (transport (local_request request) ≡ failed e [])

  exchange-unsent :
      (outcome : Outcome) (e : GoError)
      → after_exchange outcome ≡ err e
      → e.was_dispatched ≡ some false
      → (inner : GoError) × (outcome ≡ failed inner [])
  unfolding after_exchange
  exchange-unsent (failed inner []) e h d = (inner, refl)
  exchange-unsent (failed inner (info ∷ later)) e h d =
      absurd (ground (arith, phase_set 0 info later))
  exchange-unsent (cut_off inner) e h d = absurd (ground arith)
  exchange-unsent (answered s t b) e h d = absurd (ground arith)

  request-unsent :
      (found : Option Bytes) (local : LocalRequest) (e : GoError)
      → after_request found local ≡ err e
      → e.was_dispatched ≡ some false
      → (inner : GoError) × (transport local ≡ failed inner [])
  unfolding after_request
  request-unsent (some text) local e h d = absurd (ground arith)
  request-unsent none local e h d = exchange-unsent (transport local) e h d

  validation-IsUnsent :
      (found : Option RequestError) (request : Request) (e : GoError)
      → after_validation found request ≡ err e
      → e.was_dispatched ≡ some false
      → IsUnsent request
  unfolding after_validation
  validation-IsUnsent (some x) request e h d = absurd (ground arith)
  validation-IsUnsent none request e h d =
      request-unsent (new_request (local_request request)) (local_request request) e h d

  -- If the relay reports that a request never reached the local API, so that a caller may repeat
  -- it, then its exchange failed, and net/http had never called `WroteRequest` for it: neither for a
  -- whole request nor for one whose writing had failed.
  pub forward-IsUnsent :
      (request : Request) (now : ℕ) (e : GoError)
      → forward request now ≡ err e
      → classify e ≡ local_predispatch_unavailable
      → IsUnsent request
  unfolding forward
  forward-IsUnsent request now e h c =
      validation-IsUnsent (validate_request json unicode request now max_request) request e h
        ((predispatch_honest e).0 c).1

  -- A reply that the relay may pass on: JSON within the limit, with a content type.
  pub record IsPassable (reply : Reply) : Type 0 where
    pub nonempty : reply.body ≢ []
    pub syntax : json.valid reply.body ≡ true
    pub size : length reply.body ≤ max_response
    pub typed : reply.content_type ≢ []

  passable_payload :
      (status : ℕ) (content_type payload : Bytes) (reply : Reply)
      → check_payload status content_type payload ≡ ok reply
      → (ltb max_response (length payload) ≡ false)
        × (length payload == 0 || not (json.valid payload) ≡ false)
        × (reply ≡ record {
          status = status;
          content_type = if bytes_eq content_type [] then json_type else content_type;
          body = payload;
        })
  unfolding check_payload
  passable_payload status content_type payload reply h = ground arith

  content_type-ne-nil : (t : Bytes) → (if bytes_eq t [] then json_type else t) ≢ []
  unfolding json_type
  content_type-ne-nil t e = elim (Bool-cases (bytes_eq t [])) [
    | inl empty ↦ no_json_type (rw empty at e)
    | inr full ↦ ground (arith, bytes_eq_iff t [], rw full at e)
  ]
    where
      no_json_type : codes "application/json" ≢ []
      no_json_type k = cc

  payload-IsPassable :
      (status : ℕ) (content_type payload : Bytes) (reply : Reply)
      → check_payload status content_type payload ≡ ok reply
      → IsPassable reply
  payload-IsPassable status content_type payload reply h =
      let (small, good, same) = passable_payload status content_type payload reply h in
      rw same (record {
        nonempty = λ e. ground (arith, ap length e);
        syntax = ground arith;
        size = ground arith;
        typed = content_type-ne-nil content_type;
      })

  exchange-IsPassable :
      (outcome : Outcome) (reply : Reply) → after_exchange outcome ≡ ok reply → IsPassable reply
  unfolding after_exchange
  exchange-IsPassable (failed e written) reply h = absurd (cc)
  exchange-IsPassable (cut_off e) reply h = absurd (cc)
  exchange-IsPassable (answered s t b) reply h =
      payload-IsPassable s t (take (max_response + 1) b) reply h

  request-IsPassable :
      (found : Option Bytes) (local : LocalRequest) (reply : Reply)
      → after_request found local ≡ ok reply
      → IsPassable reply
  unfolding after_request
  request-IsPassable (some text) local reply h = absurd (cc)
  request-IsPassable none local reply h = exchange-IsPassable (transport local) reply h

  validation-IsPassable :
      (found : Option RequestError) (request : Request) (reply : Reply)
      → after_validation found request ≡ ok reply
      → (found ≡ none) × IsPassable reply
  unfolding after_validation
  validation-IsPassable (some x) request reply h = absurd (cc)
  validation-IsPassable none request reply h = (
    refl,
    request-IsPassable (new_request (local_request request)) (local_request request) reply h,
  )

  -- `Forward` returns a reply only to a request that is valid when it is forwarded, and the reply
  -- is JSON, not empty, within the limit, and has a content type.
  pub forward-IsPassable :
      (request : Request) (now : ℕ) (reply : Reply)
      → forward request now ≡ ok reply
      → (validate_request json unicode request now max_request ≡ none) × IsPassable reply
  unfolding forward
  forward-IsPassable request now reply h =
      validation-IsPassable (validate_request json unicode request now max_request) request reply h
