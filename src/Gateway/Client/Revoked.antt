-- ===== src/Gateway/Client/Revoked.antt =====
-- `Revoke`: what has happened when it succeeds.
use edukod_companion.Base.{
  ◌==◌, ◌≡◌, refl, true, false, not, ◌||◌, ◌&&◌, List, [], ◌∷◌, ◌++◌, Bytes, bytes_eq, codes,
  trim_space, contains_any, Result, ok, err, arith,
}
use edukod_companion.Base.Url.{Url}
use edukod_companion.Base.Triples.{guard-Post, Post, Post-weaken, continue-Post}
use edukod_companion.Gateway.Client.{
  revoke_request, rejected, bad_credential, HttpRequest, HttpResponse, Network,
  validate_school_origin, answer, send, revoke,
}
use edukod_companion.Gateway.Client.Checks.{IsOrigin, validate_school_origin-Post}

module _ (network : Network) where
  abbrev Anything : List HttpRequest → Type 0
  Anything sent = Unit {0}

  -- The answers that mean the device is gone.
  abbrev pub IsAccepted : HttpResponse → Type 0
  IsAccepted response =
      (response.status == 200) || (response.status == 204) || (response.status == 404) ≡ true

  -- One more request was sent, to the school's origin, with the credential; the school accepted it.
  abbrev pub IsRevoked : Bytes → Bytes → List HttpRequest → List HttpRequest → Type 0
  IsRevoked raw token before sent =
      (origin : Url) × IsOrigin network raw origin
      × (sent ≡ before ++ revoke_request origin token ∷ [])
      × ((response : HttpResponse) × (network.exchange (revoke_request origin token) ≡ ok response)
          × IsAccepted response)

  abbrev Answered : HttpRequest → List HttpRequest → HttpResponse → List HttpRequest → Type 0
  Answered request before response v =
      (network.exchange request ≡ ok response) × (v ≡ before ++ request ∷ [])

  Answered-Post :
      (request : HttpRequest) (before : List HttpRequest) (r : Result Bytes HttpResponse)
      → network.exchange request ≡ r
      → Post (Answered request before) Anything (answer network r (before ++ request ∷ []))
  unfolding answer
  Answered-Post request before (ok response) e = (e, refl)
  Answered-Post request before (err text) e = tt

  send-Answered :
      (request : HttpRequest) (before sent : List HttpRequest)
      → sent ≡ before
      → Post (Answered request before) Anything (send network request sent)
  unfolding send
  send-Answered request before sent e =
      rw e (Answered-Post request before (network.exchange request) refl)

  accepted :
      (response : HttpResponse)
      → not (response.status == 200) && not (response.status == 204) && not (response.status == 404)
        ≡ false
      → IsAccepted response
  accepted response h = ground arith

  -- If `Revoke` succeeds, then it has sent the credential to the school, and the school has
  -- answered that the device is gone.
  pub revoke-IsRevoked :
      (raw token : Bytes) (before : List HttpRequest)
      → Post (λ u. IsRevoked raw token before) Anything (revoke network raw token before)
  unfolding revoke
  revoke-IsRevoked raw token before =
      let Q : Unit {0} → List HttpRequest → Type 0 = λ u. IsRevoked raw token before in
      let P : List HttpRequest → Type 0 = λ sent. sent ≡ before in
      continue-Post (λ origin v. IsOrigin network raw origin × P v) Q Anything
        (validate_school_origin network raw before) _
        (Post-weaken (λ origin v. IsOrigin network raw origin × P v)
          (λ origin v. IsOrigin network raw origin × P v) P Anything
          (validate_school_origin network raw before)
          (validate_school_origin-Post network P raw before refl) (λ origin v p. p) (λ v p. tt))
        (λ origin v0 s.
          guard-Post Q Anything
            (bytes_eq (trim_space token) [] || contains_any token (codes "\r\n")) bad_credential v0
            _ tt
            (λ t1.
              continue-Post (Answered (revoke_request origin token) before) Q Anything
                (send network (revoke_request origin token) v0) _
                (send-Answered (revoke_request origin token) before v0 s.1)
                (λ response v1 q.
                  guard-Post Q Anything
                    (not (response.status == 200)
                      && not (response.status == 204)
                      && not (response.status == 404))
                    (rejected response.status) v1 _ tt
                    (λ t2. (origin, s.0, q.1, (response, q.0, accepted response t2))))))
