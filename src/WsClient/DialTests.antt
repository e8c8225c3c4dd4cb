-- ===== src/WsClient/DialTests.antt =====
-- Runs of the handshake, and its theorem at a concrete network.
use edukod_companion.Base.{
  ◌≡◌, refl, true, false, none, some, [], ◌∷◌, ◌++◌, codes, ok, err, trim_space, bytes_eq,
  contains_any,
}
use edukod_companion.Base.Triples.{Post}
use edukod_companion.Base.Url.{Url, has_extras}
use edukod_companion.Protocol.Message.{pos, negsuc}
use edukod_companion.WsClient.Handshake.{
  Header, values, get, split_commas, equal_fold, header_has_token, base64, expected_accept,
  web_socket_guid,
}
use edukod_companion.WsClient.Dial.{
  Network, Dialer, rejected, HandshakeResponse, or_close, tls_settings, upgrade_name,
  connection_name, accept_name, is_upgrade, upgrade, dial, new_conn,
}
use edukod_companion.WsClient.Dial.Upgrade.{IsUpgraded, IsForServer, IsCleanedUp, dial-Post}

base64_padded : base64 (codes "Ma") ≡ codes "TWE="
unfolding base64
base64_padded = refl

base64_whole : base64 (codes "Man") ≡ codes "TWFu"
unfolding base64
base64_whole = refl

abbrev upgrade_header : Header
upgrade_header = (codes "Connection", codes "keep-alive, Upgrade") ∷ []

-- The token may stand anywhere in the list, in any case, with space around it.
token_found : header_has_token upgrade_header (codes "Connection") (codes "upgrade") ≡ true
unfolding header_has_token values split_commas equal_fold bytes_eq trim_space
token_found = refl

token_missing : header_has_token upgrade_header (codes "Connection") (codes "close") ≡ false
unfolding header_has_token values split_commas equal_fold bytes_eq trim_space
token_missing = refl

kelvin_folded :
    equal_fold (codes "WebSoc" ++ (0xe2 ∷ 0x84 ∷ 0xaa ∷ codes "et")) (codes "websocket") ≡ true
unfolding equal_fold
kelvin_folded = refl

abbrev gateway_url : Url
gateway_url = record {
  scheme = codes "wss";
  host = codes "school.example";
  user = false;
  path = codes "/ws";
  raw_path = [];
  raw_query = [];
  fragment = [];
}

abbrev dialer : Dialer
dialer = record {
  handshake_timeout = pos 0;
  read_timeout = pos 0;
  max_message_bytes = negsuc 0;
  tls_config = none;
}

-- A network whose server answers so, with a digest that keeps three bytes.
abbrev network : HandshakeResponse → Network
network response = record {
  urls = record {
    parse = λ s. some gateway_url;
    text = λ u. [];
    hostname = λ u. u.host;
    port = λ u. [];
  };
  sha1 = λ s. codes "Man";
  connect = λ host port. none;
  set_deadline = none;
  secure = λ c. none;
  random = ok (codes "Man");
  write = λ r. none;
  respond = λ r. ok (response, 1 ∷ 2 ∷ []);
  clear_deadline = none;
  entropy = [];
}

abbrev switching : HandshakeResponse
switching = record {
  status = 101;
  header =
      (codes "Upgrade", codes "WebSocket")
      ∷ (codes "Connection", codes "Upgrade")
      ∷ (codes "Sec-Websocket-Accept", codes "TWFu")
      ∷ [];
}

dialed :
    (dial (network switching) dialer (codes "wss://school.example/ws") (codes "secret") []).0
    ≡ ok (new_conn (network switching) dialer (1 ∷ 2 ∷ []))
unfolding dial upgrade is_upgrade or_close tls_settings header_has_token values get split_commas
    equal_fold base64 expected_accept web_socket_guid upgrade_name connection_name accept_name
    bytes_eq trim_space contains_any has_extras
dialed = refl

-- A gateway that answers with a page is refused, and the connection is closed.
refused_log :
    (dial
      (network (record switching { status = 200 }))
      dialer
      (codes "wss://school.example/ws")
      (codes "secret")
      []).0
    ≡ err (rejected 200)
unfolding dial upgrade is_upgrade or_close tls_settings header_has_token values get split_commas
    equal_fold base64 expected_accept web_socket_guid upgrade_name connection_name accept_name
    bytes_eq trim_space contains_any has_extras
refused_log = refl

dial-Post_example :
    Post
      (IsUpgraded (network switching) dialer (codes "u") (codes "secret"))
      (IsCleanedUp (IsForServer (network switching) dialer (codes "u") (codes "secret")))
      (dial (network switching) dialer (codes "u") (codes "secret") [])
dial-Post_example = dial-Post (network switching) dialer (codes "u") (codes "secret")
