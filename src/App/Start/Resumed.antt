-- ===== src/App/Start/Resumed.antt =====
-- `run` after `pair`: what was paired can be started.
use edukod_companion.Base.{
  ◌≡◌, ◌≢◌, refl, sym, ap, ◌∙◌, Bool, true, false, Option, none, some, List, [], ◌∷◌, ◌++◌, Bytes,
  codes, bytes_eq, trim_space, if◌then◌else◌, ok,
}
use edukod_companion.Base.Url.{Url, HostnameLaw}
use edukod_companion.Base.Triples.{Post, Post-returned, Post-succeeds, continue-Post}
use edukod_companion.Config.Store.{Pairing, Keyring, Store, whole, prepared, load}
use edukod_companion.Config.Store.RoundTrip.{IsFaithful, load-IsStored}
use edukod_companion.Gateway.Client.{
  Call, web_socket_path, validate_school_origin, validate_web_socket_url,
}
use edukod_companion.Gateway.Client.Checks.{IsSocket}
use edukod_companion.Gateway.Client.Accepted.{
  validate_school_origin_again, validate_web_socket_url_again, origin_unique,
}
use edukod_companion.LocalApi.Address.{v1_path}
use edukod_companion.LocalApi.Address.Accepted.{new_base_again}
use edukod_companion.App.Machine.{
  in_store, stored_origin, stored_socket, PairFlags, Env, Machine, on_gateway, from_result,
  from_option, new_store, open_store, default_store,
}
use edukod_companion.App.Machine.Rules.{on_store-Post, on_gateway-Post}
use edukod_companion.Relay.Options.{default_max_response_bytes}
use edukod_companion.App.Pair.{choose_store, new_pairing}
use edukod_companion.App.Pair.Paired.{IsPaired}
use edukod_companion.App.Inspect.{load_pairing, local_base}
use edukod_companion.App.Start.{check_stored, start}

module _ {K : Type 0} (env : Env K) where
  -- From now on no call of the operating system fails.
  abbrev pub calm : Machine K → Machine K
  calm m = record m { world = record m.world { faults = [] } }

  gateway_returned :
      {A : Type 0} (wrap : _) (action : Call A) (a : A) (x : Machine K)
      → (action x.requests).0 ≡ ok a
      → Post (λ b y. b ≡ a) (λ y. ⊥) (on_gateway wrap action x)
  gateway_returned wrap action a x h =
      on_gateway-Post (λ b y. b ≡ a) (λ y. ⊥) wrap action x (Post-returned (action x.requests) a h)

  -- Whatever the flag `credential-store` says, `run` knows the keyring.
  chosen-KnowsKeyring :
      (kind : Bytes) (store : Store K) (keyring : Keyring K)
      → choose_store env kind ≡ some store
      → store.keyring ≡ some keyring
      → some env.keyring ≡ some keyring
  unfolding choose_store
  chosen-KnowsKeyring kind store keyring chosen there =
      by_tests (bytes_eq kind (codes "auto")) (bytes_eq kind (codes "keyring"))
        (bytes_eq kind (codes "file")) chosen
    where
      same_store : (found : Store K) → some found ≡ some store → found ≡ store
      same_store found e = cc

      no_keyring : ◌≡◌ {A = Option (Keyring K)} none (some keyring) → ⊥
      no_keyring e = cc

      by_tests :
          (a b c : Bool)
          → (if a
              then some (default_store env)
              else if b
              then some (record { keyring = some env.keyring; require_keyring = true })
              else if c
              then some (record { keyring = none; require_keyring = false })
              else none)
            ≡ some store
          → some env.keyring ≡ some keyring
      by_tests true b c e =
          ap (λ (x : Store K). x.keyring) (same_store (default_store env) e) ∙ there
      by_tests false true c e =
          ap (λ (x : Store K). x.keyring)
            (same_store (record { keyring = some env.keyring; require_keyring = true }) e)
          ∙ there
      by_tests false false true e = absurd (
          no_keyring (
            ap (λ (x : Store K). x.keyring)
              (same_store (record { keyring = none; require_keyring = false }) e)
            ∙ there))
      by_tests false false false e = cc

  module _ (flags : PairFlags) (v : Machine K) (p : IsPaired env flags v) where
    abbrev pub paired_state : Pairing
    paired_state = new_pairing env flags p.origin p.base p.enrollment

    socket-IsSocket : IsSocket env.network paired_state.web_socket_url p.origin
    socket-IsSocket =
        let (valid, low, high, (origin, there, socket)) = p.usable in
        rw (origin_unique env.network flags.school p.origin origin p.school there) socket

    module _ (empty_path : (url : Url) → env.network.urls.parse [] ≡ some url → url.path ≡ []) where
      socket-nonempty : paired_state.web_socket_url ≢ []
      unfolding web_socket_path trim_space
      socket-nonempty e =
          let (url, found, secure, host, path, plain) = socket-IsSocket in
          no_path (
            sym path
            ∙ empty_path url (sym (ap (λ t. env.network.urls.parse (trim_space t)) e) ∙ found))
        where
          no_path : codes "/api/ai/companion/v1/ws" ≢ []
          no_path k = cc

      base-nonempty :
          env.network.urls.parse (trim_space (env.network.urls.text p.base)) ≡ some p.base
          → paired_state.local_base_url ≢ []
      unfolding v1_path trim_space
      base-nonempty parsed e = no_path (
          sym p.local.path
          ∙ empty_path p.base (sym (ap (λ t. env.network.urls.parse (trim_space t)) e) ∙ parsed))
        where
          no_path : codes "/v1" ≢ []
          no_path k = cc

    abbrev pub saved : Pairing
    saved =
        prepared env.store_json (default_store env) paired_state p.enrollment.device_token
          p.stored.stored

    module _ (hostname_law : HostnameLaw env.network.urls.hostname)
        (origin_parsed : env.network.urls.parse (trim_space (env.network.urls.text p.origin))
          ≡ some p.origin)
        (base_parsed : env.network.urls.parse (trim_space (env.network.urls.text p.base))
          ≡ some p.base)
        (loads : (load env.store_json (default_store env) (calm v).world).0
          ≡ ok (saved, p.enrollment.device_token)) where
      abbrev Loaded : Pairing × Bytes → Machine K → Type 0
      Loaded found x = found ≡ (saved, p.enrollment.device_token)

      load_pairing-Loaded :
          (arguments : List Bytes) (directory : Bytes)
          → env.parse_common arguments ≡ some directory
          → open_store env directory ≡ none
          → Post Loaded (λ x. ⊥) (load_pairing env in_store arguments (calm v))
      unfolding load_pairing from_option new_store
      load_pairing-Loaded arguments directory parsed opened =
          rw (parsed, opened)
            (on_store-Post Loaded (λ x. ⊥) in_store (load env.store_json (default_store env))
              (calm v)
              (Post-returned (load env.store_json (default_store env) (calm v).world)
                (saved, p.enrollment.device_token) loads))

      addresses-Loaded :
          (x : Machine K)
          → Post (λ base y. base ≡ p.base) (λ y. ⊥) (check_stored env saved p.origin x)
      unfolding check_stored from_result local_base
      addresses-Loaded x =
          let (url, again) =
            validate_web_socket_url_again env.network paired_state.web_socket_url p.origin
              x.requests socket-IsSocket in
          continue-Post (λ u y. u ≡ url) (λ base y. base ≡ p.base) (λ y. ⊥)
            (on_gateway stored_socket
              (validate_web_socket_url env.network paired_state.web_socket_url p.origin) x)
            _
            (gateway_returned stored_socket
              (validate_web_socket_url env.network paired_state.web_socket_url p.origin) url x
              (ap (λ r. r.0) again))
            (λ u y e.
              rw
                (new_base_again env.network.urls env.resolve p.base default_max_response_bytes
                  hostname_law p.local base_parsed refl)
                refl)

      start-Loaded :
          (arguments : List Bytes) (directory : Bytes)
          → env.parse_common arguments ≡ some directory
          → open_store env directory ≡ none
          → Post
              (λ (found : (Pairing × Bytes) × Url) x.
                found ≡ ((saved, p.enrollment.device_token), p.base))
              (λ x. ⊥)
              (start env arguments (calm v))
      unfolding start
      start-Loaded arguments directory parsed opened =
          let Q : (Pairing × Bytes) × Url → Machine K → Type 0 =
            λ found x. found ≡ ((saved, p.enrollment.device_token), p.base) in
          let Never : Machine K → Type 0 = λ x. ⊥ in
          continue-Post Loaded Q Never (load_pairing env in_store arguments (calm v)) _
            (load_pairing-Loaded arguments directory parsed opened)
            (λ found x same. rw same (
              continue-Post (λ o y. o ≡ p.origin) Q Never
                (on_gateway stored_origin
                  (validate_school_origin env.network paired_state.school_origin) x)
                _
                (gateway_returned stored_origin
                  (validate_school_origin env.network paired_state.school_origin) p.origin x
                  (ap (λ r. r.0)
                    (validate_school_origin_again env.network flags.school p.origin x.requests
                      hostname_law p.school origin_parsed)))
                (λ o y e. rw e (
                  continue-Post (λ base z. base ≡ p.base) Q Never
                    (check_stored env saved p.origin y) _ (addresses-Loaded y)
                    (λ base z b. ap (λ u. ((saved, p.enrollment.device_token), u)) b)))))

  -- A device that `pair` has paired can start `run`: as long as the operating system's calls
  -- succeed, the checks before the loop pass, with the pairing, the credential and the local API's
  -- base that were saved. The conditions: the flags parse and the store opens; the stored encoding
  -- decodes to the pairing, the keyring gives back what it stored, and the credential has no space at
  -- its ends; in net/url, the texts of the origin and of the base parse to them, a host's name does
  -- not depend on the path, and an empty text has an empty path.
  pub start-pair :
      (flags : PairFlags) (v : Machine K) (p : IsPaired env flags v) (arguments : List Bytes)
      (directory : Bytes)
      → env.parse_common arguments ≡ some directory
      → open_store env directory ≡ none
      → env.store_json.decode (p.stored.text ++ b'\n' ∷ []) ≡ whole (saved flags v p)
      → IsFaithful (some env.keyring)
      → trim_space p.enrollment.device_token ≡ p.enrollment.device_token
      → env.network.urls.parse (trim_space (env.network.urls.text p.origin)) ≡ some p.origin
      → env.network.urls.parse (trim_space (env.network.urls.text p.base)) ≡ some p.base
      → HostnameLaw env.network.urls.hostname
      → ((url : Url) → env.network.urls.parse [] ≡ some url → url.path ≡ [])
      → (start env arguments (calm v)).0 ≡ ok ((saved flags v p, p.enrollment.device_token), p.base)
  start-pair flags v p arguments directory parsed opened decoded faithful trimmed origin_parsed
        base_parsed hostname_law empty_path =
      let loads : (load env.store_json (default_store env) (calm v).world).0
          ≡ ok (saved flags v p, p.enrollment.device_token) =
        load-IsStored env.store_json (default_store env) p.store (paired_state flags v p)
          p.enrollment.device_token v.world
          (λ k there. chosen-KnowsKeyring flags.credential_store p.store k p.chosen there) p.stored
          decoded faithful trimmed (socket-nonempty flags v p empty_path)
          (base-nonempty flags v p empty_path base_parsed) in
      let (found, succeeded, same) = Post-succeeds _ (start env arguments (calm v)) (
        start-Loaded flags v p hostname_law origin_parsed base_parsed loads arguments directory
          parsed opened) in
      succeeded ∙ ap ok same
