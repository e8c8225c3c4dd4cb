-- ===== src/WsClient/Handshake.antt =====
-- wsclient.go: `expectedAccept` and `headerHasToken`.
use edukod_companion.Base.{
  ℕ, ◌+◌, ◌*◌, ◌/◌, ◌%◌, ◌-◌, ◌==◌, Bool, true, false, ◌&&◌, ◌||◌, List, [], ◌∷◌, ◌++◌, Bytes,
  codes, bytes_eq, trim_space, lower_ascii, ltb, if◌then◌else◌,
}

-- `http.Header` as the list of its fields, under canonical names.
abbrev pub Header : Type 0
Header = List (Bytes × Bytes)

unfoldable pub values : Header → Bytes → List Bytes
values [] name = []
values ((key, value) ∷ rest) name =
    if bytes_eq key name then value ∷ values rest name else values rest name

-- `Header.Get`: the first value, or the empty string.
unfoldable pub get : Header → Bytes → Bytes
get [] name = []
get ((key, value) ∷ rest) name = if bytes_eq key name then value else get rest name

-- A byte in front of the first part.
in_front : ℕ → List Bytes → List Bytes
in_front c [] = (c ∷ []) ∷ []
in_front c (part ∷ parts) = (c ∷ part) ∷ parts

-- `strings.Split(value, ",")`.
unfoldable pub split_commas : Bytes → List Bytes
unfolding in_front
split_commas [] = [] ∷ []
split_commas (c ∷ s) =
    let parts = split_commas s in if c == b',' then [] ∷ parts else in_front c parts

-- `strings.EqualFold(s, t)` for an ASCII `t` in small letters. Unicode folds two more characters
-- onto ASCII letters: the Kelvin sign, 0xe2 0x84 0xaa, and the long s, 0xc5 0xbf.
unfoldable pub equal_fold : Bytes → Bytes → Bool
unfolding lower_ascii
equal_fold [] [] = true
equal_fold [] (e ∷ t) = false
equal_fold (c ∷ s) [] = false
equal_fold (c ∷ []) (e ∷ t) = lower_ascii c == e && equal_fold [] t
equal_fold (c ∷ d ∷ []) (e ∷ t) =
    (lower_ascii c == e && equal_fold (d ∷ []) t)
    || (c == 0xc5 && d == 0xbf && e == b's' && equal_fold [] t)
equal_fold (c ∷ d ∷ f ∷ s) (e ∷ t) =
    (lower_ascii c == e && equal_fold (d ∷ f ∷ s) t)
    || (c == 0xc5 && d == 0xbf && e == b's' && equal_fold (f ∷ s) t)
    || (c == 0xe2 && d == 0x84 && f == 0xaa && e == b'k' && equal_fold s t)

any_token : List Bytes → Bytes → Bool
any_token [] expected = false
any_token (token ∷ tokens) expected =
    equal_fold (trim_space token) expected || any_token tokens expected

any_value : List Bytes → Bytes → Bool
unfolding any_token
any_value [] expected = false
any_value (value ∷ rest) expected =
    any_token (split_commas value) expected || any_value rest expected

unfoldable pub header_has_token : Header → Bytes → Bytes → Bool
unfolding any_value
header_has_token header name expected = any_value (values header name) expected

-- A character of the standard alphabet of base64.
base64_char : ℕ → ℕ
base64_char n =
    if ltb n 26
    then b'A' + n
    else if ltb n 52
    then b'a' + (n - 26)
    else if ltb n 62
    then b'0' + (n - 52)
    else if n == 62
    then b'+'
    else b'/'

-- `base64.StdEncoding.EncodeToString`.
unfoldable pub base64 : Bytes → Bytes
unfolding base64_char
base64 [] = []
base64 (a ∷ []) = base64_char (a / 4) ∷ base64_char (a % 4 * 16) ∷ b'=' ∷ b'=' ∷ []
base64 (a ∷ b ∷ []) =
    base64_char (a / 4) ∷ base64_char (a % 4 * 16 + b / 16) ∷ base64_char (b % 16 * 4) ∷ b'=' ∷ []
base64 (a ∷ b ∷ c ∷ rest) =
    base64_char (a / 4)
    ∷ base64_char (a % 4 * 16 + b / 16)
    ∷ base64_char (b % 16 * 4 + c / 64)
    ∷ base64_char (c % 64)
    ∷ base64 rest

unfoldable pub web_socket_guid : Bytes
web_socket_guid = codes "258EAFA5-E914-47DA-95CA-C5AB0DC85B11"

-- `sha1` is `sha1.Sum`.
unfoldable pub expected_accept : (Bytes → Bytes) → Bytes → Bytes
expected_accept sha1 key = base64 (sha1 (key ++ web_socket_guid))
