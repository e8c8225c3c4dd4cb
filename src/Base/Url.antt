-- ===== src/Base/Url.antt =====
-- net/url, as far as the program uses it: the parts of a parsed URL, and the functions on them.
use mathlib.Core.Path.{◌≡◌}
use mathlib.Core.Bool.{Bool, false, not, ◌||◌}
use mathlib.Core.Option.{Option}
use mathlib.Core.List.{[]}
use native.Mathlib.Omega.{arith}
use edukod_companion.Base.Text.{Bytes, bytes_eq, bytes_eq_iff}

-- `user` says whether there is user information.
pub record Url : Type 0 where
  pub scheme : Bytes
  pub host : Bytes
  pub user : Bool
  pub path : Bytes
  pub raw_path : Bytes
  pub raw_query : Bytes
  pub fragment : Bytes

-- `url.Parse` and the methods `String`, `Hostname` and `Port`.
pub record Urls : Type 0 where
  pub parse : Bytes → Option Url
  pub text : Url → Bytes
  pub hostname : Url → Bytes
  pub port : Url → Bytes

-- `User != nil || RawQuery != "" || Fragment != ""`.
unfoldable pub has_extras : Url → Bool
has_extras url = url.user || not (bytes_eq url.raw_query []) || not (bytes_eq url.fragment [])

-- No user information, query or fragment.
abbrev pub IsPlain : Url → Type 0
IsPlain url = (url.user ≡ false) × (url.raw_query ≡ []) × (url.fragment ≡ [])

pub no_extras : (url : Url) → has_extras url ≡ false → IsPlain url
unfolding has_extras
no_extras url h = (
  ground arith,
  ground (arith, bytes_eq_iff url.raw_query []),
  ground (arith, bytes_eq_iff url.fragment []),
)

pub plain_extras : (url : Url) → IsPlain url → has_extras url ≡ false
unfolding has_extras
plain_extras url h =
    ground (arith, bytes_eq_iff url.raw_query [], bytes_eq_iff url.fragment [], h.0, h.1, h.2)

-- The name of a URL's host does not depend on its path.
abbrev pub HostnameLaw : (Url → Bytes) → Type 0
HostnameLaw hostname =
    (url : Url) (path raw_path : Bytes)
    → hostname (record url { path = path; raw_path = raw_path }) ≡ hostname url
