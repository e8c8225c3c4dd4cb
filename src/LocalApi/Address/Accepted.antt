-- ===== src/LocalApi/Address/Accepted.antt =====
-- The checks of the local API's address pass what they have once passed.
use edukod_companion.Base.{
  ◌≢◌, ◌≡◌, ◌⊎◌, inl, inr, refl, sym, ap, ap₂, ◌∙◌, ℕ, Bool, true, false, not, ◌&&◌, some, List, [],
  Bytes, codes, bytes_eq, bytes_eq_iff, ltb, trim_space, if◌then◌else◌, Result, ok, err, arith, All,
}
use edukod_companion.Base.Url.{Url, Urls, has_extras, plain_extras, HostnameLaw}
use edukod_companion.Protocol.Message.{pos}
use edukod_companion.LocalApi.Loopback.{
  ensure_loopback_host, ensure_loopback_host_passed, is_loopback,
}
use edukod_companion.LocalApi.Address.{
  AddressError, wrong_scheme, not_plain, no_host, wrong_path, no_room, http, https, v1_path,
  filled_path, after_host, check_base, validate_base_url, check_room, new_base, IsLocalBase,
}

module _ (urls : Urls) (resolve : Bytes → Result Bytes (List Bytes)) where
  after_host_passed :
      (url : Url) (addresses : List Bytes)
      → resolve (urls.hostname url) ≡ ok addresses
      → addresses ≢ []
      → All (λ ip. is_loopback ip ≡ true) addresses
      → after_host urls resolve (ensure_loopback_host (resolve (urls.hostname url))) url ≡ ok url
  unfolding after_host
  after_host_passed url addresses resolved nonempty local =
      ap (λ r. after_host urls resolve (ensure_loopback_host r) url) resolved
      ∙ ap (λ o. after_host urls resolve o url)
          (ensure_loopback_host_passed addresses nonempty local)

  test_passed :
      (test : Bool) (e : AddressError) (r : Result AddressError Url)
      → test ≡ false
      → (if test then err e else r) ≡ r
  test_passed true e r h = absurd (cc)
  test_passed false e r h = refl

  path_passed :
      (path : Bytes)
      → path ≡ v1_path
      → not (bytes_eq (filled_path urls resolve path) v1_path)
          && not (bytes_eq (filled_path urls resolve path) (codes "/v1/"))
        ≡ false
  unfolding filled_path v1_path bytes_eq
  path_passed path e = rw e refl

  unchanged :
      (base : Url)
      → base.path ≡ v1_path
      → base.raw_path ≡ []
      → record base { path = v1_path; raw_path = [] } ≡ base
  unchanged base path raw = ap₂ (λ p r. record base { path = p; raw_path = r }) (sym path) (sym raw)

  check_base_passed :
      (base : Url)
      → IsLocalBase urls resolve base
      → urls.hostname base ≢ []
      → check_base urls resolve (some base) ≡ ok base
  unfolding check_base
  check_base_passed base local named =
      test_passed (not (bytes_eq base.scheme http) && not (bytes_eq base.scheme https)) wrong_scheme
        _ (scheme_passed local.scheme)
      ∙ test_passed (has_extras base) not_plain _ (plain_extras base local.plain)
      ∙ test_passed (bytes_eq (urls.hostname base) []) no_host _
          (ground (arith, bytes_eq_iff (urls.hostname base) []))
      ∙ test_passed
          (not (bytes_eq (filled_path urls resolve base.path) v1_path)
            && not (bytes_eq (filled_path urls resolve base.path) (codes "/v1/")))
          wrong_path _ (path_passed base.path local.path)
      ∙ rw (unchanged base local.path local.raw)
          (after_host_passed base local.addresses local.resolved local.nonempty local.loopback)
    where
      scheme_passed :
          (base.scheme ≡ http) ⊎ (base.scheme ≡ https)
          → not (bytes_eq base.scheme http) && not (bytes_eq base.scheme https) ≡ false
      scheme_passed (inl e) = ground (arith, bytes_eq_iff base.scheme http)
      scheme_passed (inr e) = ground (arith, bytes_eq_iff base.scheme https)

  -- A base that was accepted is accepted again, once its text is parsed to it.
  pub new_base_again :
      (base : Url) (room : ℕ)
      → HostnameLaw urls.hostname
      → IsLocalBase urls resolve base
      → urls.parse (trim_space (urls.text base)) ≡ some base
      → ltb 0 room ≡ true
      → new_base urls resolve (urls.text base) (pos room) ≡ ok base
  unfolding new_base validate_base_url check_room
  new_base_again base room law local parsed enough =
      ap (λ o. check_room urls resolve (pos room) (check_base urls resolve o)) parsed
      ∙ ap (check_room urls resolve (pos room))
          (check_base_passed base local (λ e. local.named (named_source e)))
      ∙ ap (λ (b : Bool). if b then ok base else err no_room) enough
    where
      named_source : urls.hostname base ≡ [] → urls.hostname local.source ≡ []
      named_source e = sym (law local.source v1_path []) ∙ ap urls.hostname (sym local.same) ∙ e
