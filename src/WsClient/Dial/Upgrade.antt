-- ===== src/WsClient/Dial/Upgrade.antt =====
-- What `Dial` needs to succeed, and what it leaves when it fails.
use edukod_companion.Base.{
  ◌≡◌, refl, Bool, true, false, not, ◌||◌, Option, none, some, List, [], ◌∷◌, Bytes, codes,
  bytes_eq, bytes_eq_iff, contains_any, trim_space, Result, ok, err, arith, continue, fail_if,
  if◌then◌else◌,
}
use edukod_companion.Base.Url.{Url, has_extras, IsPlain, no_extras}
use edukod_companion.Base.Triples.{Post}
use edukod_companion.WsClient.Conn.{Conn}
use edukod_companion.WsClient.Handshake.{get, header_has_token, base64, expected_accept}
use edukod_companion.WsClient.Dial.{
  HandshakeRequest, HandshakeResponse, DialError, not_wss, not_connected, not_plain, bad_credential,
  deadline_refused, not_secured, no_random, not_written, not_answered, rejected, DialEvent,
  connected, secured, sent, closed, Network, Dialer, TlsConfig, Dialing, or_close, as_result,
  tls_settings, upgrade_name, connection_name, accept_name, handshake_request, connect_to,
  is_upgrade, check_upgrade, new_conn, upgrade, check_dial, dial,
}

-- Is a connection open after the events?
abbrev pub is_open : List DialEvent → Bool
is_open [] = false
is_open (connected host port ∷ log) = true
is_open (closed ∷ log) = false
is_open (secured config ∷ log) = is_open log
is_open (sent request ∷ log) = is_open log

-- Is it secured, under settings that satisfy `P`?
abbrev pub Secured : (TlsConfig → Type 0) → List DialEvent → Type 0
Secured P [] = ⊥
Secured P (connected host port ∷ log) = ⊥
Secured P (closed ∷ log) = ⊥
Secured P (secured config ∷ log) = P config
Secured P (sent request ∷ log) = Secured P log

-- Each request went over a connection that was secured so.
abbrev pub AllSecured : (TlsConfig → Type 0) → List DialEvent → Type 0
AllSecured P [] = Unit {0}
AllSecured P (connected host port ∷ log) = AllSecured P log
AllSecured P (closed ∷ log) = AllSecured P log
AllSecured P (secured config ∷ log) = AllSecured P log
AllSecured P (sent request ∷ log) = Secured P log × AllSecured P log

-- No connection is left open, and no request went out unsecured.
abbrev pub IsCleanedUp : (TlsConfig → Type 0) → List DialEvent → Type 0
IsCleanedUp P log = (is_open log ≡ false) × AllSecured P log

or_close-Post :
    {A B : Type 0} (R : B → List DialEvent → Type 0) (P : TlsConfig → Type 0)
    (wrap : Bytes → DialError) (result : Result Bytes A) (log : List DialEvent) (f : A → Dialing B)
    → AllSecured P log
    → ((a : A) → result ≡ ok a → Post R (IsCleanedUp P) (f a log))
    → Post R (IsCleanedUp P) (continue (or_close wrap result log) f)
unfolding or_close
or_close-Post R P wrap (ok a) log f h next = next a refl
or_close-Post R P wrap (err text) log f h next = (refl, h)

module _ (network : Network) (dialer : Dialer) (raw token : Bytes) where
  -- The settings for the server that the URL names.
  abbrev pub IsForServer : TlsConfig → Type 0
  IsForServer config =
      (url : Url) × (network.urls.parse raw ≡ some url)
      × (config ≡ tls_settings dialer (network.urls.hostname url))

  -- How a connection came about: the URL, the handshake over TLS, and the answer to it.
  pub record IsUpgraded (conn : Conn) (log : List DialEvent) : Type 0 where
    pub url : Url
    pub parsed : network.urls.parse raw ≡ some url
    pub scheme : url.scheme ≡ codes "wss"
    pub plain : IsPlain url
    pub key : Bytes
    pub answer : HandshakeResponse × Bytes
    pub answered : network.respond (handshake_request url token key) ≡ ok answer
    pub status : answer.0.status ≡ 101
    pub upgrade_token : header_has_token answer.0.header upgrade_name (codes "websocket") ≡ true
    pub connection_token : header_has_token answer.0.header connection_name (codes "upgrade") ≡ true
    pub accepted : get answer.0.header accept_name ≡ expected_accept network.sha1 key
    pub fresh : conn ≡ new_conn network dialer answer.1
    pub remains : is_open log ≡ true
    pub sent : AllSecured IsForServer log

  abbrev Failed : List DialEvent → Type 0
  Failed = IsCleanedUp IsForServer

  is_upgrade-facts :
      (key : Bytes) (response : HandshakeResponse)
      → is_upgrade network dialer key response ≡ true
      → (response.status ≡ 101)
        × (header_has_token response.header upgrade_name (codes "websocket") ≡ true)
        × (header_has_token response.header connection_name (codes "upgrade") ≡ true)
        × (get response.header accept_name ≡ expected_accept network.sha1 key)
  unfolding is_upgrade
  is_upgrade-facts key response h =
      ground
        (arith, bytes_eq_iff (get response.header accept_name) (expected_accept network.sha1 key))

  tested :
      (b : Bool) (text : Bytes)
      → ◌≡◌ {A = Result Bytes (Unit {0})} (if b then ok tt else err text) (ok tt)
      → b ≡ true
  tested true text h = refl
  tested false text h = cc

  upgrade-Post :
      (url : Url) (host port : Bytes)
      → network.urls.parse raw ≡ some url
      → url.scheme ≡ codes "wss"
      → IsPlain url
      → Post IsUpgraded Failed (upgrade network dialer url token (connected host port ∷ []))
  unfolding upgrade check_upgrade
  upgrade-Post url host port parsed scheme plain =
      let config : TlsConfig = tls_settings dialer (network.urls.hostname url) in
      or_close-Post IsUpgraded IsForServer deadline_refused (as_result network.set_deadline)
        (connected host port ∷ []) _ tt
        (λ u1 e1.
          or_close-Post IsUpgraded IsForServer not_secured (as_result (network.secure config))
            (connected host port ∷ []) _ tt
            (λ u2 e2.
              or_close-Post IsUpgraded IsForServer no_random network.random
                (secured config ∷ connected host port ∷ []) _ tt
                (λ random e3.
                  let request : HandshakeRequest = handshake_request url token (base64 random) in
                  let over : List DialEvent = secured config ∷ connected host port ∷ [] in
                  let safe : AllSecured IsForServer (sent request ∷ over) =
                    ((url, parsed, refl), tt) in
                  or_close-Post IsUpgraded IsForServer not_written
                    (as_result (network.write request)) over _ tt
                    (λ u4 e4.
                      or_close-Post IsUpgraded IsForServer not_answered (network.respond request)
                        (sent request ∷ over) _ safe
                        (λ answer e5.
                          or_close-Post IsUpgraded IsForServer (λ text. rejected answer.0.status)
                            (if is_upgrade network dialer (base64 random) answer.0
                              then ok tt
                              else err [])
                            (sent request ∷ over) _ safe
                            (λ u6 e6.
                              or_close-Post IsUpgraded IsForServer deadline_refused
                                (as_result network.clear_deadline) (sent request ∷ over) _ safe
                                (λ u7 e7.
                                  let (status, one, two, accepted) =
                                    is_upgrade-facts (base64 random) answer.0 (
                                      tested (is_upgrade network dialer (base64 random) answer.0) []
                                        e6) in
                                  record {
                                    url = url;
                                    parsed = parsed;
                                    scheme = scheme;
                                    plain = plain;
                                    key = base64 random;
                                    answer = answer;
                                    answered = e5;
                                    status = status;
                                    upgrade_token = one;
                                    connection_token = two;
                                    accepted = accepted;
                                    fresh = refl;
                                    remains = refl;
                                    sent = safe;
                                  })))))))

  connect-Post :
      (url : Url)
      → network.urls.parse raw ≡ some url
      → url.scheme ≡ codes "wss"
      → IsPlain url
      → Post IsUpgraded Failed
          (continue (connect_to network dialer url []) (λ u. upgrade network dialer url token))
  unfolding connect_to
  connect-Post url parsed scheme plain =
      with_answer (network.connect (network.urls.hostname url) used)
    where
      used : Bytes
      used = if bytes_eq (network.urls.port url) [] then codes "443" else network.urls.port url

      with_answer :
          (found : Option Bytes)
          → Post IsUpgraded Failed (
              let r : Result DialError (Unit {0}) × List DialEvent = elim found [
                | none ↦ (ok tt, connected (network.urls.hostname url) used ∷ [])
                | some text ↦ (err (not_connected text), [])
              ] in
              continue r (λ u. upgrade network dialer url token))
      with_answer none = upgrade-Post url (network.urls.hostname url) used parsed scheme plain
      with_answer (some text) = (refl, tt)

  secure_url :
      (url : Url)
      → not (bytes_eq url.scheme (codes "wss")) || bytes_eq (network.urls.hostname url) [] ≡ false
      → url.scheme ≡ codes "wss"
  secure_url url h = ground (arith, bytes_eq_iff url.scheme (codes "wss"))

  checked-Post :
      (found : Option Url)
      → network.urls.parse raw ≡ found
      → Post IsUpgraded Failed (
          continue (check_dial network dialer found token []) (λ url log.
            continue (connect_to network dialer url log) (λ u. upgrade network dialer url token)))
  unfolding check_dial
  checked-Post none parsed = (refl, tt)
  checked-Post (some url) parsed =
      checks (not (bytes_eq url.scheme (codes "wss")) || bytes_eq (network.urls.hostname url) [])
        (has_extras url) (bytes_eq (trim_space token) [] || contains_any token (codes "\r\n"))
        (λ t1 t2. connect-Post url parsed (secure_url url t1) (no_extras url t2))
    where
      checks :
          (t1 t2 t3 : Bool)
          → (t1 ≡ false
              → t2 ≡ false
              → Post IsUpgraded Failed (
                  continue
                    (connect_to network dialer url [])
                    (λ u. upgrade network dialer url token)))
          → Post IsUpgraded Failed (
              continue
                (continue (fail_if t1 not_wss []) (λ u l1.
                  continue
                    (fail_if t2 not_plain l1)
                    (λ u l2. continue (fail_if t3 bad_credential l2) (λ u l3. (ok url, l3)))))
                (λ v log.
                  continue (connect_to network dialer v log) (λ u. upgrade network dialer v token)))
      checks true t2 t3 go = (refl, tt)
      checks false true t3 go = (refl, tt)
      checks false false true go = (refl, tt)
      checks false false false go = go refl refl

  -- `Dial` returns a connection only if the URL is a plain wss URL and the server answered the
  -- handshake over TLS with status 101, the two upgrade tokens and the digest of the key that was
  -- sent; the connection is new and stays open. When it fails, no connection is left open. In both
  -- cases no request, and so no credential, went out before TLS was set up for the URL's host.
  pub dial-Post : Post IsUpgraded Failed (dial network dialer raw token [])
  unfolding dial
  dial-Post = checked-Post (network.urls.parse raw) refl
