-- ===== src/Gateway/Client/Checks.antt =====
-- What the checks of an origin and of a socket's address let through.
use edukod_companion.Base.{
  ◌≡◌, ◌≢◌, refl, false, not, ◌||◌, ◌&&◌, Option, none, some, List, [], ◌∷◌, Bytes, bytes_eq,
  bytes_eq_iff, trim_space, arith,
}
use edukod_companion.Base.Url.{Url, has_extras, IsPlain, no_extras}
use edukod_companion.Base.Triples.{guard-Post, Post}
use edukod_companion.Gateway.Client.{
  HttpRequest, not_https_origin, origin_not_plain, origin_with_path, foreign_socket,
  unexpected_socket, Network, https, wss, web_socket_path, check_origin, validate_school_origin,
  check_socket, validate_web_socket_url,
}

module _ (network : Network) where
  -- The school's origin, as the text says it.
  abbrev pub IsOrigin : Bytes → Url → Type 0
  IsOrigin raw origin =
      (url : Url) × (network.urls.parse (trim_space raw) ≡ some url)
      × (origin ≡ record url { path = []; raw_path = [] })
      × (network.urls.hostname url ≢ [])
      × (url.scheme ≡ https)
      × IsPlain url

  check_origin-Post :
      (P : List HttpRequest → Type 0) (raw : Bytes) (found : Option Url) (sent : List HttpRequest)
      → network.urls.parse (trim_space raw) ≡ found
      → P sent
      → Post (λ origin v. IsOrigin raw origin × P v) P (check_origin network found sent)
  unfolding check_origin
  check_origin-Post P raw none sent e h = h
  check_origin-Post P raw (some url) sent e h =
      let Q : Url → List HttpRequest → Type 0 = λ origin v. IsOrigin raw origin × P v in
      guard-Post Q P (not (bytes_eq url.scheme https) || bytes_eq (network.urls.hostname url) [])
        not_https_origin sent _ h
        (λ t1. guard-Post Q P (has_extras url) origin_not_plain sent _ h (λ t2.
          guard-Post Q P (not (bytes_eq url.path []) && not (bytes_eq url.path (b'/' ∷ [])))
            origin_with_path sent _ h
            (λ t3. ((url, e, refl, named t1, secure t1, no_extras url t2), h))))
    where
      secure :
          not (bytes_eq url.scheme https) || bytes_eq (network.urls.hostname url) [] ≡ false
          → url.scheme ≡ https
      secure f = ground (arith, bytes_eq_iff url.scheme https)

      named :
          not (bytes_eq url.scheme https) || bytes_eq (network.urls.hostname url) [] ≡ false
          → network.urls.hostname url ≢ []
      named f e = ground (arith, bytes_eq_iff (network.urls.hostname url) [])

  pub validate_school_origin-Post :
      (P : List HttpRequest → Type 0) (raw : Bytes) (sent : List HttpRequest)
      → P sent
      → Post (λ origin v. IsOrigin raw origin × P v) P (validate_school_origin network raw sent)
  unfolding validate_school_origin
  validate_school_origin-Post P raw sent h = check_origin-Post P raw _ sent refl h

  -- The address of the gateway that belongs to an origin.
  abbrev pub IsSocket : Bytes → Url → Type 0
  IsSocket raw origin =
      (url : Url) × (network.urls.parse (trim_space raw) ≡ some url)
      × (url.scheme ≡ wss)
      × (url.host ≡ origin.host)
      × (url.path ≡ web_socket_path)
      × IsPlain url

  check_socket-Post :
      (P : List HttpRequest → Type 0) (raw : Bytes) (origin : Url) (found : Option Url)
      (sent : List HttpRequest)
      → network.urls.parse (trim_space raw) ≡ found
      → P sent
      → Post (λ url v. IsSocket raw origin × P v) P (check_socket network found origin sent)
  unfolding check_socket
  check_socket-Post P raw origin none sent e h = h
  check_socket-Post P raw origin (some url) sent e h =
      let Q : Url → List HttpRequest → Type 0 = λ u v. IsSocket raw origin × P v in
      guard-Post Q P (not (bytes_eq url.scheme wss) || not (bytes_eq url.host origin.host))
        foreign_socket sent _ h
        (λ t1.
          guard-Post Q P (not (bytes_eq url.path web_socket_path) || has_extras url)
            unexpected_socket sent _ h
            (λ t2. (
              (url, e, (secure t1).0, (secure t1).1, (exact t2).0, no_extras url (exact t2).1),
              h,
            )))
    where
      secure :
          not (bytes_eq url.scheme wss) || not (bytes_eq url.host origin.host) ≡ false
          → (url.scheme ≡ wss) × (url.host ≡ origin.host)
      secure f = (
        ground (arith, bytes_eq_iff url.scheme wss),
        ground (arith, bytes_eq_iff url.host origin.host),
      )

      exact :
          not (bytes_eq url.path web_socket_path) || has_extras url ≡ false
          → (url.path ≡ web_socket_path) × (has_extras url ≡ false)
      exact f = (ground (arith, bytes_eq_iff url.path web_socket_path), ground arith)

  pub validate_web_socket_url-Post :
      (P : List HttpRequest → Type 0) (raw : Bytes) (origin : Url) (sent : List HttpRequest)
      → P sent
      → Post
          (λ url v. IsSocket raw origin × P v)
          P
          (validate_web_socket_url network raw origin sent)
  unfolding validate_web_socket_url
  validate_web_socket_url-Post P raw origin sent h = check_socket-Post P raw origin _ sent refl h
