-- ===== src/App/Start/Ready.antt =====
-- `run`, before the loop: what has been checked when it starts.
use edukod_companion.Base.{◌≡◌, refl, List, Bytes, ok}
use edukod_companion.Base.Url.{Url}
use edukod_companion.Base.Triples.{Post, Post-both, Post-weaken, Post-ok, continue-Post}
use edukod_companion.Config.FileSystem.{World}
use edukod_companion.Config.Store.{Pairing, load}
use edukod_companion.Config.Store.Directory.{Kept}
use edukod_companion.Config.Store.Quiet.{load-IsQuiet}
use edukod_companion.Config.Store.Loaded.{IsLoadable, load-Post}
use edukod_companion.Gateway.Client.{
  HttpRequest, Call, validate_school_origin, validate_web_socket_url,
}
use edukod_companion.Gateway.Client.Checks.{
  IsOrigin, IsSocket, validate_school_origin-Post, validate_web_socket_url-Post,
}
use edukod_companion.LocalApi.Address.{IsLocalBase, new_base-IsLocalBase}
use edukod_companion.App.Machine.{
  bad_flags, bad_address, in_store, stored_origin, stored_socket, Env, Machine, on_store,
  on_gateway, from_option, new_store, open_store, default_store,
}
use edukod_companion.App.Machine.Rules.{
  Untouched, on_store-Post, on_gateway-Post, from_option-Post, from_result-Post, new_store-Post,
}
use edukod_companion.App.Inspect.{load_pairing, local_base}
use edukod_companion.App.Start.{check_stored, start}

module _ {K : Type 0} (env : Env K) where
  -- What the loop may rely on.
  pub record IsReady (m : Machine K) (state : Pairing) (base : Url) : Type 0 where
    pub loadable : IsLoadable env.store_json (default_store env) m.world state
    pub origin : Url
    pub school : IsOrigin env.network state.school_origin origin
    pub socket : IsSocket env.network state.web_socket_url origin
    pub local : IsLocalBase env.network.urls env.resolve base

  -- A check of the gateway's client that sends nothing.
  check-Post :
      (m v : Machine K) (P : Url → Type 0) (wrap : _) (check : Call Url)
      → Untouched m v
      → Post
          (λ url sent. P url × (sent ≡ m.requests))
          (λ sent. sent ≡ m.requests)
          (check v.requests)
      → Post (λ url x. P url × Untouched m x) (Untouched m) (on_gateway wrap check v)
  check-Post m v P wrap check h p =
      on_gateway-Post (λ url x. P url × Untouched m x) (Untouched m) wrap check v
        (Post-weaken (λ url sent. P url × (sent ≡ m.requests))
          (λ url sent. P url × Untouched m (record v { requests = sent }))
          (λ sent. sent ≡ m.requests) (λ sent. Untouched m (record v { requests = sent }))
          (check v.requests) p (λ url sent q. (q.0, (h.0, q.1))) (λ sent q. (h.0, q)))

  abbrev Loadable : Machine K → Pairing × Bytes → Machine K → Type 0
  Loadable m p x = IsLoadable env.store_json (default_store env) m.world p.0 × Untouched m x

  loading-Post :
      (m : Machine K)
      → Post
          (Loadable m)
          (Untouched m)
          (on_store in_store (load env.store_json (default_store env)) m)
  loading-Post m =
      let Q : Pairing × Bytes → World K → Type 0 =
        λ p w. IsLoadable env.store_json (default_store env) m.world p.0 in
      on_store-Post (Loadable m) (Untouched m) in_store (load env.store_json (default_store env)) m
        (Post-weaken (λ p w. Q p w × Kept m.world w) (λ p w. Loadable m p (record m { world = w }))
          (λ w. Unit {0} × Kept m.world w) (λ w. Untouched m (record m { world = w }))
          (load env.store_json (default_store env) m.world)
          (Post-both Q (λ p. Kept m.world) (λ w. Unit {0}) (Kept m.world) _
            (load-Post env.store_json (default_store env) m.world)
            (load-IsQuiet env.store_json (default_store env) m.world m.world (refl, refl, refl)))
          (λ p w h. (h.0, (h.1, refl))) (λ w h. (h.1, refl)))

  load_pairing-Post :
      (arguments : List Bytes) (m : Machine K)
      → Post (Loadable m) (Untouched m) (load_pairing env in_store arguments m)
  unfolding load_pairing
  load_pairing-Post arguments m =
      let Same : Machine K → Type 0 = λ v. v ≡ m in
      continue-Post (λ d. Same) (Loadable m) (Untouched m)
        (from_option bad_flags (env.parse_common arguments) m) _
        (from_option-Post (λ d. Same) (Untouched m) bad_flags _ m ((refl, refl, refl), refl)
          (λ d e. refl))
        (λ directory v1 s1.
          continue-Post (λ u. Same) (Loadable m) (Untouched m)
            (new_store (open_store env directory) v1) _
            (new_store-Post (λ u. Same) (Untouched m) (open_store env directory) v1
              (rw s1 ((refl, refl, refl), refl)) s1)
            (λ u v2 s2. rw s2 (loading-Post m)))

  addresses-Post :
      (m v : Machine K) (state : Pairing) (origin : Url)
      → Untouched m v
      → Post
          (λ base x.
            IsSocket env.network state.web_socket_url origin
            × IsLocalBase env.network.urls env.resolve base
            × Untouched m x)
          (Untouched m)
          (check_stored env state origin v)
  unfolding check_stored local_base
  addresses-Post m v state origin h =
      let Q : Url → Machine K → Type 0 = λ base x.
        IsSocket env.network state.web_socket_url origin
        × IsLocalBase env.network.urls env.resolve base
        × Untouched m x in
      continue-Post (λ url x. IsSocket env.network state.web_socket_url origin × Untouched m x) Q
        (Untouched m)
        (on_gateway stored_socket (validate_web_socket_url env.network state.web_socket_url origin)
          v)
        _
        (check-Post m v (λ url. IsSocket env.network state.web_socket_url origin) stored_socket
          (validate_web_socket_url env.network state.web_socket_url origin) h
          (validate_web_socket_url-Post env.network (λ sent. sent ≡ m.requests) state.web_socket_url
            origin v.requests h.1))
        (λ url x p.
          from_result-Post Q (Untouched m) bad_address (local_base env state) x p.1
            (λ base e. (p.0, new_base-IsLocalBase _ _ _ _ base e, p.1)))

  pub start-Post :
      (arguments : List Bytes) (m : Machine K)
      → Post
          (λ (found : (Pairing × Bytes) × Url) x. IsReady m found.0.0 found.1 × Untouched m x)
          (Untouched m)
          (start env arguments m)
  unfolding start
  start-Post arguments m =
      let Q : (Pairing × Bytes) × Url → Machine K → Type 0 =
        λ found x. IsReady m found.0.0 found.1 × Untouched m x in
      let Quiet : List HttpRequest → Type 0 = λ sent. sent ≡ m.requests in
      continue-Post (Loadable m) Q (Untouched m) (load_pairing env in_store arguments m) _
        (load_pairing-Post arguments m)
        (λ loaded v1 p1.
          continue-Post
            (λ origin x. IsOrigin env.network loaded.0.school_origin origin × Untouched m x) Q
            (Untouched m)
            (on_gateway stored_origin (validate_school_origin env.network loaded.0.school_origin)
              v1)
            _
            (check-Post m v1 (IsOrigin env.network loaded.0.school_origin) stored_origin
              (validate_school_origin env.network loaded.0.school_origin) p1.1
              (validate_school_origin-Post env.network Quiet loaded.0.school_origin v1.requests
                p1.1.1))
            (λ origin v2 p2.
              continue-Post
                (λ base x.
                  IsSocket env.network loaded.0.web_socket_url origin
                  × IsLocalBase env.network.urls env.resolve base
                  × Untouched m x)
                Q (Untouched m) (check_stored env loaded.0 origin v2) _
                (addresses-Post m v2 loaded.0 origin p2.1)
                (λ base v3 p3. (
                  record {
                    loadable = p1.0;
                    origin = origin;
                    school = p2.0;
                    socket = p3.0;
                    local = p3.1;
                  },
                  p3.2,
                ))))

  -- When the checks before the loop succeed, the pairing comes from a private file, its socket is
  -- one of its own school's host, and the local API's host resolves to loopback addresses only.
  pub start-IsReady :
      (arguments : List Bytes) (m : Machine K) (state : Pairing) (token : Bytes) (base : Url)
      → (start env arguments m).0 ≡ ok ((state, token), base)
      → IsReady m state base
  start-IsReady arguments m state token base h =
      (Post-ok (λ (found : (Pairing × Bytes) × Url) x. IsReady m found.0.0 found.1 × Untouched m x)
        (Untouched m) (start env arguments m) ((state, token), base) (start-Post arguments m) h).0
