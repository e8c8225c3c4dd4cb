-- ===== src/WsClient/Dial.antt =====
-- wsclient.go: `Dialer` and `Dial`. The network is a record of what its calls come to; what `Dial`
-- does with it is a list of events, the newest first.
pub mod Upgrade
use edukod_companion.Base.{
  ℕ, ◌*◌, ◌^◌, ◌==◌, ◌≡◌, refl, Bool, true, false, not, ◌&&◌, ◌||◌, Option, none, some, List, [],
  ◌∷◌, ◌++◌, Bytes, codes, bytes_eq, contains_any, trim_space, ltb, if◌then◌else◌, Result, ok, err,
  Fallible, pure, fail_if, ◌>>=◌, ◌>>◌,
}
use edukod_companion.Base.Url.{Url, Urls, has_extras}
use edukod_companion.Protocol.Message.{ℤ, pos, negsuc}
use edukod_companion.WsClient.Conn.{Conn}
use edukod_companion.WsClient.Handshake.{Header, get, header_has_token, base64, expected_accept}

-- The settings of `tls.Config` that `Dial` looks at.
pub record TlsConfig : Type 0 where
  pub server_name : Bytes
  pub min_version : ℕ

abbrev pub version_tls12 : ℕ
version_tls12 = 0x0303

-- Times are nanoseconds; the model has no use for the two time limits.
pub record Dialer : Type 0 where
  pub handshake_timeout : ℤ
  pub read_timeout : ℤ
  pub max_message_bytes : ℤ
  pub tls_config : Option TlsConfig

pub record HandshakeRequest : Type 0 where
  pub url : Url
  pub host : Bytes
  pub header : Header

pub record HandshakeResponse : Type 0 where
  pub status : ℕ
  pub header : Header

pub data DialError : Type 0 where
  unparsable_url not_wss not_plain bad_credential : DialError
  not_connected deadline_refused not_secured no_random not_written not_answered : Bytes → DialError
  rejected : ℕ → DialError

pub data DialEvent : Type 0 where
  connected : Bytes → Bytes → DialEvent
  secured : TlsConfig → DialEvent
  sent : HandshakeRequest → DialEvent
  closed : DialEvent

-- What the calls of `Dial` come to: `none` is a nil error, and an error is its text. `respond` has
-- the response, and the bytes that come after it on the connection; `entropy` is what `rand.Read`
-- gives from then on.
pub record Network : Type 0 where
  pub urls : Urls
  pub sha1 : Bytes → Bytes
  pub connect : Bytes → Bytes → Option Bytes
  pub set_deadline : Option Bytes
  pub secure : TlsConfig → Option Bytes
  pub random : Result Bytes Bytes
  pub write : HandshakeRequest → Option Bytes
  pub respond : HandshakeRequest → Result Bytes (HandshakeResponse × Bytes)
  pub clear_deadline : Option Bytes
  pub entropy : Bytes

abbrev pub Dialing : Type 0 → Type 0
Dialing = Fallible (List DialEvent) DialError

abbrev pub note : DialEvent → Dialing (Unit {0})
note event log = (ok tt, event ∷ log)

-- `if err != nil { connection.Close(); return nil, ... }`.
unfoldable pub or_close : {A : Type 0} → (Bytes → DialError) → Result Bytes A → Dialing A
or_close wrap (ok a) log = (ok a, log)
or_close wrap (err text) log = (err (wrap text), closed ∷ log)

abbrev pub as_result : Option Bytes → Result Bytes (Unit {0})
as_result none = ok tt
as_result (some text) = err text

unfoldable pub tls_settings : Dialer → Bytes → TlsConfig
tls_settings dialer hostname = elim dialer.tls_config [
  | none ↦ record { server_name = hostname; min_version = version_tls12 }
  | some config ↦ record {
    server_name = if bytes_eq config.server_name [] then hostname else config.server_name;
    min_version = if config.min_version == 0 then version_tls12 else config.min_version;
  }
]

-- `if maxMessage <= 0 { maxMessage = 12 << 20 }`.
unfoldable pub message_limit : ℤ → ℕ
message_limit (pos n) = if ltb 0 n then n else 12 * 2 ^ 20
message_limit (negsuc n) = 12 * 2 ^ 20

unfoldable pub upgrade_name : Bytes
upgrade_name = codes "Upgrade"

unfoldable pub connection_name : Bytes
connection_name = codes "Connection"

unfoldable pub accept_name : Bytes
accept_name = codes "Sec-Websocket-Accept"

abbrev pub handshake_request : Url → Bytes → Bytes → HandshakeRequest
handshake_request url token key = record {
  url = url;
  host = url.host;
  header =
      (codes "Authorization", codes "Bearer " ++ token)
      ∷ (codes "Connection", codes "Upgrade")
      ∷ (codes "Upgrade", codes "websocket")
      ∷ (codes "Sec-Websocket-Key", key)
      ∷ (codes "Sec-Websocket-Version", codes "13")
      ∷ [];
}

module _ (network : Network) (dialer : Dialer) where
  connect_to : Url → Dialing (Unit {0})
  connect_to url log =
      let port = network.urls.port url in
      let used = if bytes_eq port [] then codes "443" else port in
      elim (network.connect (network.urls.hostname url) used) [
        | none ↦ (ok tt, connected (network.urls.hostname url) used ∷ log)
        | some text ↦ (err (not_connected text), log)
      ]

  -- The four tests of the response.
  unfoldable pub is_upgrade : Bytes → HandshakeResponse → Bool
  is_upgrade key response =
      response.status == 101
      && header_has_token response.header upgrade_name (codes "websocket")
      && header_has_token response.header connection_name (codes "upgrade")
      && bytes_eq (get response.header accept_name) (expected_accept network.sha1 key)

  check_upgrade : Bytes → HandshakeResponse → Dialing (Unit {0})
  check_upgrade key response =
      or_close (λ text. rejected response.status)
        (if is_upgrade key response then ok tt else err [])

  abbrev pub new_conn : Bytes → Conn
  new_conn rest = record {
    input = rest;
    output = [];
    entropy = network.entropy;
    max_message = message_limit dialer.max_message_bytes;
    closed = false;
    broken = false;
    close_once = false;
  }

  -- From the TLS client on.
  unfoldable pub upgrade : Url → Bytes → Dialing Conn
  unfolding check_upgrade
  upgrade url token = do
    or_close deadline_refused (as_result network.set_deadline)
    or_close not_secured
        (as_result (network.secure (tls_settings dialer (network.urls.hostname url))))
    note (secured (tls_settings dialer (network.urls.hostname url)))
    random ← or_close no_random network.random
    or_close not_written (as_result (network.write (handshake_request url token (base64 random))))
    note (sent (handshake_request url token (base64 random)))
    answer ← or_close not_answered (network.respond (handshake_request url token (base64 random)))
    check_upgrade (base64 random) answer.0
    or_close deadline_refused (as_result network.clear_deadline)
    pure (new_conn answer.1)

  check_dial : Option Url → Bytes → Dialing Url
  check_dial none token log = (err unparsable_url, log)
  check_dial (some url) token log =
      (do
        fail_if (not (bytes_eq url.scheme (codes "wss")) || bytes_eq (network.urls.hostname url) [])
            not_wss
        fail_if (has_extras url) not_plain
        fail_if (bytes_eq (trim_space token) [] || contains_any token (codes "\r\n")) bad_credential
        pure url)
        log

  unfoldable pub dial : Bytes → Bytes → Dialing Conn
  unfolding check_dial connect_to
  dial raw token = do
    url ← check_dial (network.urls.parse raw) token
    connect_to url
    upgrade url token
