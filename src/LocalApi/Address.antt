-- ===== src/LocalApi/Address.antt =====
-- client.go: `ValidateBaseURL`, and the checks of `New`.
pub mod Accepted
use edukod_companion.Base.{
  early_return, ok_injective, ◌≢◌, ◌≡◌, ◌⊎◌, inl, inr, refl, sym, ap, ap₂, ◌∙◌, ℕ, Bool, true,
  false, not, ◌&&◌, ◌||◌, Option, none, some, List, [], ◌∷◌, Bytes, codes, bytes_eq, bytes_eq_iff,
  ltb, trim_space, if◌then◌else◌, Result, ok, err, arith, All,
}
use edukod_companion.Base.Url.{Url, Urls, has_extras, IsPlain, no_extras, plain_extras, HostnameLaw}
use edukod_companion.Protocol.Message.{ℤ, pos, negsuc}
use edukod_companion.LocalApi.Loopback.{
  HostError, ensure_loopback_host, ensure_loopback_host_ok, ensure_loopback_host_passed,
  is_loopback,
}

pub data AddressError : Type 0 where
  unparsable wrong_scheme not_plain no_host wrong_path no_room : AddressError
  bad_host : HostError → AddressError

unfoldable pub http : Bytes
http = codes "http"

unfoldable pub https : Bytes
https = codes "https"

unfoldable pub v1_path : Bytes
v1_path = codes "/v1"

-- `resolve` is `net.DefaultResolver.LookupIPAddr`.
module _ (urls : Urls) (resolve : Bytes → Result Bytes (List Bytes)) where
  -- A missing path is filled in before it is tested.
  filled_path : Bytes → Bytes
  filled_path path = if bytes_eq path [] || bytes_eq path (b'/' ∷ []) then v1_path else path

  after_host : Option HostError → Url → Result AddressError Url
  after_host none url = ok url
  after_host (some e) url = err (bad_host e)

  check_base : Option Url → Result AddressError Url
  unfolding filled_path after_host
  check_base none = err unparsable
  check_base (some url) =
      if not (bytes_eq url.scheme http) && not (bytes_eq url.scheme https)
      then err wrong_scheme
      else if has_extras url
      then err not_plain
      else if bytes_eq (urls.hostname url) []
      then err no_host
      else if not (bytes_eq (filled_path url.path) v1_path)
          && not (bytes_eq (filled_path url.path) (codes "/v1/"))
      then err wrong_path
      else after_host
          (ensure_loopback_host
            (resolve (urls.hostname (record url { path = v1_path; raw_path = [] }))))
          (record url { path = v1_path; raw_path = [] })

  unfoldable pub validate_base_url : Bytes → Result AddressError Url
  unfolding check_base
  validate_base_url raw = check_base (urls.parse (trim_space raw))

  check_room : ℤ → Result AddressError Url → Result AddressError Url
  check_room max_response (err e) = err e
  check_room (pos n) (ok base) = if ltb 0 n then ok base else err no_room
  check_room (negsuc n) (ok base) = err no_room

  -- The base of the client that `New` makes.
  unfoldable pub new_base : Bytes → ℤ → Result AddressError Url
  unfolding check_room
  new_base raw max_response = check_room max_response (validate_base_url raw)

  -- A base that the client may talk to: http or https, nothing but a host and the path /v1, and the
  -- host resolves to loopback addresses only, one at least.
  pub record IsLocalBase (url : Url) : Type 0 where
    pub scheme : (url.scheme ≡ http) ⊎ (url.scheme ≡ https)
    pub plain : IsPlain url
    pub path : url.path ≡ v1_path
    pub raw : url.raw_path ≡ []
    pub source : Url
    pub named : urls.hostname source ≢ []
    pub same : url ≡ record source { path = v1_path; raw_path = [] }
    pub addresses : List Bytes
    pub resolved : resolve (urls.hostname url) ≡ ok addresses
    pub nonempty : addresses ≢ []
    pub loopback : All (λ ip. is_loopback ip ≡ true) addresses

  -- The paths that are accepted: none, `/`, `/v1` and `/v1/`.
  abbrev pub IsAcceptedPath : Bytes → Type 0
  IsAcceptedPath path = (path ≡ []) ⊎ (path ≡ codes "/") ⊎ (path ≡ v1_path) ⊎ (path ≡ codes "/v1/")

  tested-IsAcceptedPath :
      (path : Bytes)
      → not (bytes_eq (filled_path path) v1_path)
          && not (bytes_eq (filled_path path) (codes "/v1/"))
        ≡ false
      → IsAcceptedPath path
  unfolding filled_path
  tested-IsAcceptedPath path h = ground (
    arith,
    bytes_eq_iff path [],
    bytes_eq_iff path (codes "/"),
    bytes_eq_iff path v1_path,
    bytes_eq_iff path (codes "/v1/"),
  )

  after_host-IsLocalBase :
      (url : Url) (found : Option HostError) (base : Url)
      → ensure_loopback_host
          (resolve (urls.hostname (record url { path = v1_path; raw_path = [] })))
        ≡ found
      → (url.scheme ≡ http) ⊎ (url.scheme ≡ https)
      → IsPlain url
      → urls.hostname url ≢ []
      → after_host found (record url { path = v1_path; raw_path = [] }) ≡ ok base
      → IsLocalBase base × (base ≡ record url { path = v1_path; raw_path = [] })
  unfolding after_host
  after_host-IsLocalBase url (some e) base seen scheme plain named h = absurd (cc)
  after_host-IsLocalBase url none base seen scheme plain named h =
      let (ips, resolved, nonempty, local) = ensure_loopback_host_ok _ seen in
      let same : record url { path = v1_path; raw_path = [] } ≡ base = ok_injective _ base h in
      rw (← same) (
        record {
          scheme = scheme;
          plain = plain;
          path = refl;
          raw = refl;
          source = url;
          named = named;
          same = refl;
          addresses = ips;
          resolved = resolved;
          nonempty = nonempty;
          loopback = local;
        },
        refl,
      )

  either_scheme :
      (url : Url)
      → not (bytes_eq url.scheme http) && not (bytes_eq url.scheme https) ≡ false
      → (url.scheme ≡ http) ⊎ (url.scheme ≡ https)
  either_scheme url h = ground (arith, bytes_eq_iff url.scheme http, bytes_eq_iff url.scheme https)

  not_empty : (s : Bytes) → bytes_eq s [] ≡ false → s ≢ []
  not_empty s h e = ground (arith, bytes_eq_iff s [])

  check_base-IsLocalBase :
      (found : Option Url) (base : Url)
      → check_base found ≡ ok base
      → IsLocalBase base
        × ((url : Url) × (found ≡ some url)
            × IsAcceptedPath url.path
            × (base ≡ record url { path = v1_path; raw_path = [] }))
  unfolding check_base
  check_base-IsLocalBase none base h = absurd (cc)
  check_base-IsLocalBase (some url) base h =
      let (t1, h1) = early_return _ wrong_scheme _ base h in
      let (t2, h2) = early_return _ not_plain _ base h1 in
      let (t3, h3) = early_return _ no_host _ base h2 in
      let (t4, h4) = early_return _ wrong_path _ base h3 in
      let (local, same) =
        after_host-IsLocalBase url _ base refl (either_scheme url t1) (no_extras url t2)
          (not_empty (urls.hostname url) t3) h4 in
      (local, (url, refl, tested-IsAcceptedPath url.path t4, same))

  -- A base URL that is accepted is the one in the text, with the path /v1 put in: the text is http or
  -- https, has nothing but a host and a path that is missing, `/`, `/v1` or `/v1/`, and the host
  -- resolves, to loopback addresses only.
  pub validate_base_url-IsLocalBase :
      (raw : Bytes) (base : Url)
      → validate_base_url raw ≡ ok base
      → IsLocalBase base
        × ((url : Url) × (urls.parse (trim_space raw) ≡ some url)
            × IsAcceptedPath url.path
            × (base ≡ record url { path = v1_path; raw_path = [] }))
  unfolding validate_base_url
  validate_base_url-IsLocalBase raw base h =
      check_base-IsLocalBase (urls.parse (trim_space raw)) base h

  check_room_ok :
      (max_response : ℤ) (found : Result AddressError Url) (base : Url)
      → check_room max_response found ≡ ok base
      → found ≡ ok base
  unfolding check_room
  check_room_ok max_response (err e) base h = h
  check_room_ok (pos n) (ok url) base h = room (ltb 0 n) h
    where
      room :
          (b : Bool)
          → ◌≡◌ {A = Result AddressError Url} (if b then ok url else err no_room) (ok base)
          → ◌≡◌ {A = Result AddressError Url} (ok url) (ok base)
      room true e = e
      room false e = absurd (cc)
  check_room_ok (negsuc n) (ok url) base h = absurd (cc)

  -- The base of a client that `New` makes is one that the client may talk to.
  pub new_base-IsLocalBase :
      (raw : Bytes) (max_response : ℤ) (base : Url)
      → new_base raw max_response ≡ ok base
      → IsLocalBase base
  unfolding new_base
  new_base-IsLocalBase raw max_response base h =
      (validate_base_url-IsLocalBase raw base (check_room_ok max_response _ base h)).0
