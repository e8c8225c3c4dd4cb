-- ===== src/Gateway/Client/Guarantees.antt =====
-- What `Enroll` and `Revoke` send, and what `Enroll` accepts.
use edukod_companion.Base.{
  contains_any, codes, take, ◌==◌, ◌≤◌, ◌≡◌, refl, ap, ◌∙◌, true, false, not, ◌||◌, ◌&&◌, Option,
  none, some, List, [], ◌∷◌, ◌++◌, Bytes, bytes_eq, trim_space, length, All, All-append, Result, ok,
  err, arith, ltb,
}
use edukod_companion.Base.Url.{Url, IsPlain}
use edukod_companion.Base.Triples.{guard-Post, Post, Post-any, continue-Post}
use edukod_companion.Gateway.Identity.{valid_device_id}
use edukod_companion.Gateway.Client.{
  enroll_request, revoke_request, answer_too_large, rejected, incomplete_credentials,
  bad_pairing_code, bad_device_name, bad_credential, bad_code, bad_name, enrollment_path,
  device_path, HttpRequest, HttpResponse, Enrollment, Decoded, malformed, trailing, whole, Network,
  https, validate_school_origin, validate_web_socket_url, answer, send, encoded, decoded,
  with_socket, accept, enroll, revoke,
}
use edukod_companion.Gateway.Client.Checks.{
  IsOrigin, IsSocket, validate_school_origin-Post, validate_web_socket_url-Post,
}

module _ (network : Network) where
  -- A request to the school's own host, over https.
  abbrev pub IsSafe : Bytes → HttpRequest → Type 0
  IsSafe raw request =
      (url : Url) × (network.urls.parse (trim_space raw) ≡ some url)
      × (request.url.host ≡ url.host)
      × (request.url.scheme ≡ https)
      × IsPlain request.url

  answer-Post :
      (P : List HttpRequest → Type 0) (result : Result Bytes HttpResponse) (sent : List HttpRequest)
      → P sent
      → Post (λ response. P) P (answer network result sent)
  unfolding answer
  answer-Post P (ok response) sent h = h
  answer-Post P (err text) sent h = h

  send-Post :
      (raw : Bytes) (request : HttpRequest) (sent : List HttpRequest)
      → All (IsSafe raw) sent
      → IsSafe raw request
      → Post (λ response. All (IsSafe raw)) (All (IsSafe raw)) (send network request sent)
  unfolding send
  send-Post raw request sent h safe =
      answer-Post (All (IsSafe raw)) (network.exchange request) (sent ++ request ∷ [])
        (All-append (IsSafe raw) sent (request ∷ []) h (safe, tt))

  origin-IsSafe :
      (raw path : Bytes) (origin : Url) (request : HttpRequest)
      → IsOrigin network raw origin
      → request.url ≡ record origin { path = path }
      → IsSafe raw request
  origin-IsSafe raw path origin request (url, found, same, named, secure, plain) e = (
    url,
    found,
    ap (λ u. u.host) e ∙ ap (λ u. u.host) same,
    ap (λ u. u.scheme) e ∙ (ap (λ u. u.scheme) same ∙ secure),
    (
      ap (λ u. u.user) e ∙ (ap (λ u. u.user) same ∙ plain.0),
      ap (λ u. u.raw_query) e ∙ (ap (λ u. u.raw_query) same ∙ plain.1),
      ap (λ u. u.fragment) e ∙ (ap (λ u. u.fragment) same ∙ plain.2),
    ),
  )

  -- Credentials of the documented sizes, and a socket at the school's own host.
  abbrev pub IsUsable : Bytes → Enrollment → Type 0
  IsUsable raw enrollment =
      (valid_device_id enrollment.device_id ≡ true)
      × (32 ≤ length enrollment.device_token)
      × (length enrollment.device_token ≤ 4096)
      × ((origin : Url) × IsOrigin network raw origin
          × IsSocket network enrollment.web_socket_url origin)

  decoded-Post :
      (P : List HttpRequest → Type 0) (found : Decoded) (sent : List HttpRequest)
      → P sent
      → Post (λ enrollment. P) P (decoded network found sent)
  unfolding decoded
  decoded-Post P malformed sent h = h
  decoded-Post P trailing sent h = h
  decoded-Post P (whole enrollment) sent h = h

  encoded-Post :
      (P : List HttpRequest → Type 0) (found : Option Bytes) (sent : List HttpRequest)
      → P sent
      → Post (λ payload. P) P (encoded network found sent)
  unfolding encoded
  encoded-Post P none sent h = h
  encoded-Post P (some payload) sent h = h

  with_socket_keeps :
      (origin : Url) (e : Enrollment)
      → ((with_socket network origin e).device_id ≡ e.device_id)
        × ((with_socket network origin e).device_token ≡ e.device_token)
  unfolding with_socket
  with_socket_keeps origin e = ground arith

  sizes :
      (e : Enrollment)
      → not (valid_device_id e.device_id)
          || ltb (length e.device_token) 32
          || ltb 4096 (length e.device_token)
        ≡ false
      → (valid_device_id e.device_id ≡ true)
        × (32 ≤ length e.device_token)
        × (length e.device_token ≤ 4096)
  sizes e h = ground arith

  accept-Post :
      (P : List HttpRequest → Type 0) (raw : Bytes) (origin : Url) (response : HttpResponse)
      (sent : List HttpRequest)
      → IsOrigin network raw origin
      → P sent
      → Post (λ e v. IsUsable raw e × P v) P (accept network origin response sent)
  unfolding accept
  accept-Post P raw origin response sent school h =
      let Q : Enrollment → List HttpRequest → Type 0 = λ e v. IsUsable raw e × P v in
      guard-Post Q P (ltb 65536 (length (take 65537 response.body))) answer_too_large sent _ h
        (λ t1.
          guard-Post Q P (not (response.status == 201) && not (response.status == 200))
            (rejected response.status) sent _ h
            (λ t2.
              continue-Post (λ e. P) Q P
                (decoded network (network.decode (take 65537 response.body)) sent) _
                (decoded-Post P (network.decode (take 65537 response.body)) sent h)
                (λ e v p.
                  guard-Post Q P
                    (not (valid_device_id e.device_id)
                      || ltb (length e.device_token) 32
                      || ltb 4096 (length e.device_token))
                    incomplete_credentials v _ p
                    (λ t3.
                      continue-Post
                        (λ url x.
                          IsSocket network (with_socket network origin e).web_socket_url origin
                          × P x)
                        Q P
                        (validate_web_socket_url network
                          (with_socket network origin e).web_socket_url origin v)
                        _
                        (validate_web_socket_url-Post network P
                          (with_socket network origin e).web_socket_url origin v p)
                        (λ url x q.
                          let (good, low, high) = sizes e t3 in
                          let (same_id, same_token) = with_socket_keeps origin e in
                          (
                            (
                              rw same_id good,
                              rw same_token low,
                              rw same_token high,
                              (origin, school, q.0),
                            ),
                            q.1,
                          ))))))

  -- `Enroll`, whether it succeeds or not, sends only to the school's own host, over https. What it
  -- returns has a valid device id, a credential of 32 to 4096 bytes, and the address of a socket at
  -- the school's own host.
  pub enroll-Post :
      (raw code name : Bytes)
      → Post
          (λ e sent. IsUsable raw e × All (IsSafe raw) sent)
          (All (IsSafe raw))
          (enroll network raw code name [])
  unfolding enroll
  enroll-Post raw code name =
      let P : List HttpRequest → Type 0 = All (IsSafe raw) in
      let Q : Enrollment → List HttpRequest → Type 0 = λ e v. IsUsable raw e × P v in
      continue-Post (λ origin v. IsOrigin network raw origin × P v) Q P
        (validate_school_origin network raw []) _ (validate_school_origin-Post network P raw [] tt)
        (λ origin v0 s.
          guard-Post Q P (bad_code network (trim_space code)) bad_pairing_code v0 _ s.1 (λ t1.
            guard-Post Q P (bad_name network (trim_space name)) bad_device_name v0 _ s.1 (λ t2.
              continue-Post (λ payload. P) Q P (encoded network (network.encode _) v0) _
                (encoded-Post P (network.encode _) v0 s.1)
                (λ payload v1 p.
                  continue-Post (λ response. P) Q P
                    (send network (enroll_request origin payload) v1) _
                    (send-Post raw (enroll_request origin payload) v1 p (
                      origin-IsSafe raw enrollment_path origin (enroll_request origin payload) s.0
                        refl))
                    (λ response v2 q. accept-Post P raw origin response v2 s.0 q)))))

  -- `Revoke` sends the credential only to the school's own host, over https.
  pub revoke-Post : (raw token : Bytes) → All (IsSafe raw) (revoke network raw token []).1
  unfolding revoke
  revoke-Post raw token =
      let P : List HttpRequest → Type 0 = All (IsSafe raw) in
      let Q : Unit {0} → List HttpRequest → Type 0 = λ u. P in
      Post-any P (revoke network raw token []) (
        continue-Post (λ origin v. IsOrigin network raw origin × P v) Q P
          (validate_school_origin network raw []) _
          (validate_school_origin-Post network P raw [] tt)
          (λ origin v0 s.
            guard-Post Q P (bytes_eq (trim_space token) [] || contains_any token (codes "\r\n"))
              bad_credential v0 _ s.1
              (λ t1.
                continue-Post (λ response. P) Q P (send network (revoke_request origin token) v0) _
                  (send-Post raw (revoke_request origin token) v0 s.1
                    (origin-IsSafe raw device_path origin (revoke_request origin token) s.0 refl))
                  (λ response v1 q.
                    guard-Post Q P
                      (not (response.status == 200)
                        && not (response.status == 204)
                        && not (response.status == 404))
                      (rejected response.status) v1 _ q (λ t2. q)))))
