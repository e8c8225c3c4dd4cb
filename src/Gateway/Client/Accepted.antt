-- ===== src/Gateway/Client/Accepted.antt =====
-- The checks of an origin and of a socket's address pass what they have once passed.
use edukod_companion.Base.{
  ◌≡◌, ◌≢◌, refl, sym, ap, ap₂, ◌∙◌, not, ◌||◌, ◌&&◌, Option, some, List, [], ◌∷◌, Bytes, bytes_eq,
  bytes_eq_iff, trim_space, ok, arith,
}
use edukod_companion.Base.Url.{Url, has_extras, IsPlain, plain_extras, HostnameLaw}
use edukod_companion.Base.Triples.{guard_passed}
use edukod_companion.Gateway.Client.{
  HttpRequest, not_https_origin, origin_not_plain, origin_with_path, foreign_socket,
  unexpected_socket, Network, https, wss, web_socket_path, check_origin, validate_school_origin,
  check_socket, validate_web_socket_url,
}
use edukod_companion.Gateway.Client.Checks.{IsOrigin, IsSocket}

module _ (network : Network) where
  check_origin_passed :
      (url : Url) (sent : List HttpRequest)
      → network.urls.hostname url ≢ []
      → url.scheme ≡ https
      → IsPlain url
      → url.path ≡ []
      → url.raw_path ≡ []
      → check_origin network (some url) sent ≡ (ok url, sent)
  unfolding check_origin
  check_origin_passed url sent named secure plain path raw =
      guard_passed (not (bytes_eq url.scheme https) || bytes_eq (network.urls.hostname url) [])
        not_https_origin sent _
        (ground (arith, bytes_eq_iff url.scheme https, bytes_eq_iff (network.urls.hostname url) []))
      ∙ guard_passed (has_extras url) origin_not_plain sent _ (plain_extras url plain)
      ∙ guard_passed (not (bytes_eq url.path []) && not (bytes_eq url.path (b'/' ∷ [])))
          origin_with_path sent _ (ground (arith, bytes_eq_iff url.path []))
      ∙ ap (λ (u : Url). (ok u, sent))
          (ap₂ (λ p r. record url { path = p; raw_path = r }) (sym path) (sym raw))

  -- An origin that was accepted is accepted again, once its text is parsed to it.
  pub validate_school_origin_again :
      (raw : Bytes) (origin : Url) (sent : List HttpRequest)
      → HostnameLaw network.urls.hostname
      → IsOrigin network raw origin
      → network.urls.parse (trim_space (network.urls.text origin)) ≡ some origin
      → validate_school_origin network (network.urls.text origin) sent ≡ (ok origin, sent)
  unfolding validate_school_origin
  validate_school_origin_again raw origin sent law (url, found, same, named, secure, plain) parsed =
      ap (λ o. check_origin network o sent) parsed
      ∙ rw same (
          check_origin_passed (record url { path = []; raw_path = [] }) sent
            (λ e. named (sym (law url [] []) ∙ e)) secure plain refl refl)

  -- A socket's address that was accepted for an origin is accepted again.
  pub validate_web_socket_url_again :
      (raw : Bytes) (origin : Url) (sent : List HttpRequest)
      → IsSocket network raw origin
      → (url : Url) × (validate_web_socket_url network raw origin sent ≡ (ok url, sent))
  unfolding validate_web_socket_url check_socket
  validate_web_socket_url_again raw origin sent (url, found, secure, host, path, plain) = (
    url,
    ap (λ o. check_socket network o origin sent) found
        ∙ guard_passed (not (bytes_eq url.scheme wss) || not (bytes_eq url.host origin.host))
            foreign_socket sent _
            (ground (arith, bytes_eq_iff url.scheme wss, bytes_eq_iff url.host origin.host))
        ∙ guard_passed (not (bytes_eq url.path web_socket_path) || has_extras url) unexpected_socket
            sent _ (ground (arith, bytes_eq_iff url.path web_socket_path, plain_extras url plain)),
  )

  -- There is one origin in a text.
  pub origin_unique :
      (raw : Bytes) (a b : Url) → IsOrigin network raw a → IsOrigin network raw b → a ≡ b
  origin_unique raw a b (url, found, same, n, s, p) (url', found', same', n', s', p') =
      same
      ∙ ap (λ (u : Url). record u { path = []; raw_path = [] })
          (some_url url url' (sym found ∙ found'))
      ∙ sym same'
    where
      some_url : (u v : Url) → ◌≡◌ {A = Option Url} (some u) (some v) → u ≡ v
      some_url u v e = cc
