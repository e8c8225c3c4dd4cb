-- ===== src/Protocol/Validate/Allowed.antt =====
-- What protocol version 1 allows, stated without the order of the checks, and `ValidateRequest`
-- and `ValidateCancel` measured against it.
use edukod_companion.Base.{
  ℕ, zero, suc, ◌+◌, ◌*◌, ◌≤◌, ◌<◌, ◌≡◌, refl, ◌≢◌, ◌↔◌, ◌⊎◌, inl, inr, true, false, Option, none,
  some, List, [], arith, Bytes, length, bytes_eq, bytes_eq_iff, Unicode, Bool-cases,
  eq-nil_of_length, ap, ◌||◌,
}
use edukod_companion.Protocol.Id.{matches_id_iff, Matches, request_id_pattern}
use edukod_companion.Protocol.Message.{ℤ, pos, negsuc, Request, Cancel, ns_per_ms}
use edukod_companion.Protocol.Validate.{
  Json, member, type_request, type_cancel, models_path, responses_path, chat_path, method_get,
  method_post, null_text, stream_key, five_minutes, check_deadline, normal_method, check_stream,
  check_options, check_models, check_inference, check_path, validate_request, validate_cancel,
}

-- No deadline, or one in the next five minutes.
abbrev pub IsTimely : ℤ → ℕ → Type 0
IsTimely deadline now =
    (deadline ≡ pos 0)
    ⊎ ((ms : ℕ) × (deadline ≡ pos ms)
        × (now < ms * ns_per_ms)
        × (ms * ns_per_ms ≤ now + five_minutes))

check_deadline_sound : (d : ℤ) (now : ℕ) → check_deadline d now ≡ none → IsTimely d now
unfolding check_deadline
check_deadline_sound (pos zero) now h = inl refl
check_deadline_sound (pos (suc ms)) now h = inr (suc ms, refl, ground arith, ground arith)
check_deadline_sound (negsuc ms) now h = cc

check_deadline_complete : (d : ℤ) (now : ℕ) → IsTimely d now → check_deadline d now ≡ none
unfolding check_deadline
check_deadline_complete (pos zero) now h = refl
check_deadline_complete (pos (suc ms)) now h = ground arith
check_deadline_complete (negsuc ms) now h = ground arith

module _ (json : Json) (unicode : Unicode) where
  -- The body is a JSON object that does not ask for a stream.
  abbrev pub IsPlainObject : Bytes → Type 0
  IsPlainObject body =
      (options : List (Bytes × Bytes)) × (json.decode_object body ≡ some (some options))
      × ((member stream_key options ≡ none)
          ⊎ ((raw : Bytes) × (member stream_key options ≡ some raw)
              × (json.decode_bool raw ≡ some false)))

  pub record IsModelsCall (request : Request) : Type 0 where
    pub path : request.path ≡ models_path
    pub method : normal_method json unicode request ≡ method_get
    pub body : (request.body ≡ []) ⊎ (request.body ≡ null_text)

  pub record IsInferenceCall (request : Request) : Type 0 where
    pub path : (request.path ≡ responses_path) ⊎ (request.path ≡ chat_path)
    pub method : normal_method json unicode request ≡ method_post
    pub nonempty : request.body ≢ []
    pub not_null : request.body ≢ null_text
    pub object : IsPlainObject request.body

  check_stream_sound :
      (o : Option Bytes)
      → check_stream json unicode o ≡ none
      → (o ≡ none) ⊎ ((raw : Bytes) × (o ≡ some raw) × (json.decode_bool raw ≡ some false))
  unfolding check_stream
  check_stream_sound none h = inl refl
  check_stream_sound (some raw) h = inr (raw, refl, ground arith)

  check_options_sound :
      (body : Bytes) (o : Option (Option (List (Bytes × Bytes))))
      → json.decode_object body ≡ o
      → check_options json unicode o ≡ none
      → IsPlainObject body
  unfolding check_options
  check_options_sound body none e h = cc
  check_options_sound body (some none) e h = cc
  check_options_sound body (some (some options)) e h =
      (options, e, check_stream_sound (member stream_key options) h)

  check_options_complete :
      (body : Bytes)
      → IsPlainObject body
      → check_options json unicode (json.decode_object body) ≡ none
  unfolding check_options
  check_options_complete body (options, e, inl absent) = rw (e, absent)
  check_options_complete body (options, e, inr (raw, present, off)) = rw (e, present, off)

  check_models_sound :
      (r : Request) → r.path ≡ models_path → check_models json unicode r ≡ none → IsModelsCall r
  unfolding check_models
  check_models_sound r p h = record {
    path = p;
    method = ground (arith, bytes_eq_iff (normal_method json unicode r) method_get);
    body = ground (arith, bytes_eq_iff r.body null_text, eq-nil_of_length r.body);
  }

  check_models_complete : (r : Request) → IsModelsCall r → check_models json unicode r ≡ none
  unfolding check_models
  check_models_complete r m = ground (
    arith,
    bytes_eq_iff (normal_method json unicode r) method_get,
    bytes_eq_iff r.body null_text,
    m.method,
    m.body,
  )

  check_inference_sound :
      (r : Request)
      → (r.path ≡ responses_path) ⊎ (r.path ≡ chat_path)
      → check_inference json unicode r ≡ none
      → IsInferenceCall r
  unfolding check_inference
  check_inference_sound r p h = record {
    path = p;
    method = ground (arith, bytes_eq_iff (normal_method json unicode r) method_post);
    nonempty = λ e. ground (arith, ap length e);
    not_null = λ e. ground (arith, (bytes_eq_iff r.body null_text).1 e);
    object = check_options_sound r.body (json.decode_object r.body) refl (ground arith);
  }

  check_inference_complete :
      (r : Request) → IsInferenceCall r → check_inference json unicode r ≡ none
  unfolding check_inference
  check_inference_complete r m = ground (
    arith,
    bytes_eq_iff (normal_method json unicode r) method_post,
    bytes_eq_iff r.body null_text,
    eq-nil_of_length r.body,
    m.method,
    m.nonempty,
    m.not_null,
    check_options_complete r.body m.object,
  )

  check_path_sound :
      (r : Request) → check_path json unicode r ≡ none → IsModelsCall r ⊎ IsInferenceCall r
  unfolding check_path
  check_path_sound r h = elim (Bool-cases (bytes_eq r.path models_path)) [
    | inl is_models ↦ inl (check_models_sound r ((bytes_eq_iff _ _).0 is_models) (ground arith))
    | inr other ↦ inr (
        check_inference_sound r
          (ground (arith, bytes_eq_iff r.path responses_path, bytes_eq_iff r.path chat_path))
          (ground arith))
  ]

  inference_path :
      (r : Request)
      → IsInferenceCall r
      → (bytes_eq r.path models_path ≡ false)
        × (bytes_eq r.path responses_path || bytes_eq r.path chat_path ≡ true)
  unfolding bytes_eq models_path responses_path chat_path
  inference_path r m = elim m.path [
    | inl e ↦ (rw e refl, rw e refl)
    | inr e ↦ (rw e refl, rw e refl)
  ]

  check_path_complete :
      (r : Request) → IsModelsCall r ⊎ IsInferenceCall r → check_path json unicode r ≡ none
  unfolding check_path
  check_path_complete r (inl m) =
      rw ((bytes_eq_iff r.path models_path).1 m.path) (check_models_complete r m)
  check_path_complete r (inr m) =
      rw ((inference_path r m).0, (inference_path r m).1) (check_inference_complete r m)

  -- What the gateway may ask of the companion, at the time `now` and with a limit on the body.
  pub record IsAllowed (request : Request) (now max_body : ℕ) : Type 0 where
    pub type : request.type ≡ type_request
    pub id : Matches request_id_pattern request.id
    pub size : length request.body ≤ max_body
    pub syntax : request.body ≢ [] → json.valid request.body ≡ true
    pub call : IsModelsCall request ⊎ IsInferenceCall request
    pub deadline : IsTimely request.deadline_unix_ms now

  validate_request_sound :
      (r : Request) (now max_body : ℕ)
      → validate_request json unicode r now max_body ≡ none
      → IsAllowed r now max_body
  unfolding validate_request
  validate_request_sound r now max_body h = record {
    type = ground (arith, bytes_eq_iff r.type type_request);
    id = (matches_id_iff r.id).0 (ground arith);
    size = ground arith;
    syntax = λ n. ground (arith, n, eq-nil_of_length r.body);
    call = check_path_sound r (ground arith);
    deadline = check_deadline_sound r.deadline_unix_ms now (ground arith);
  }

  validate_request_complete :
      (r : Request) (now max_body : ℕ)
      → IsAllowed r now max_body
      → validate_request json unicode r now max_body ≡ none
  unfolding validate_request
  validate_request_complete r now max_body a = ground (
    arith,
    bytes_eq_iff r.type type_request,
    (matches_id_iff r.id).1 a.id,
    eq-nil_of_length r.body,
    a.type,
    a.size,
    a.syntax,
    check_path_complete r a.call,
    check_deadline_complete r.deadline_unix_ms now a.deadline,
  )

  -- `ValidateRequest` returns nil exactly on the requests that the protocol allows.
  pub validate_request_iff :
      (r : Request) (now max_body : ℕ)
      → (validate_request json unicode r now max_body ≡ none) ↔ IsAllowed r now max_body
  validate_request_iff r now max_body =
      (validate_request_sound r now max_body, validate_request_complete r now max_body)

-- `ValidateCancel` returns nil exactly if the type is "cancel" and the id is a request id.
pub validate_cancel_iff :
    (cancel : Cancel)
    → (validate_cancel cancel ≡ true)
      ↔ ((cancel.type ≡ type_cancel) × Matches request_id_pattern cancel.id)
unfolding validate_cancel
validate_cancel_iff cancel = (
  λ h. (
    ground (arith, bytes_eq_iff cancel.type type_cancel),
    (matches_id_iff cancel.id).0 (ground arith),
  ),
  λ h. ground (arith, bytes_eq_iff cancel.type type_cancel, (matches_id_iff cancel.id).1 h.1, h.0),
)
