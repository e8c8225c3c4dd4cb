-- ===== src/App/Pair/Paired.antt =====
-- `pair`: what a device that was paired has.
use edukod_companion.Base.{◌≡◌, refl, some, List, [], Bytes, Result, ok, err, All}
use edukod_companion.Base.Url.{Url}
use edukod_companion.Base.Triples.{Post, Post-weaken, Post-ok, continue-Post, guard-Post}
use edukod_companion.Config.FileSystem.{World, StoreError}
use edukod_companion.Config.Store.{Pairing, Store, exists}
use edukod_companion.Config.Store.Directory.{Kept}
use edukod_companion.Config.Store.Quiet.{exists-IsQuiet}
use edukod_companion.Config.Store.Saved.{IsStored, save-Post}
use edukod_companion.Gateway.Client.{Enrollment, enroll, validate_school_origin}
use edukod_companion.Gateway.Client.Checks.{IsOrigin, validate_school_origin-Post}
use edukod_companion.Gateway.Client.Guarantees.{IsSafe, IsUsable, enroll-Post}
use edukod_companion.LocalApi.Address.{
  validate_base_url, IsLocalBase, validate_base_url-IsLocalBase,
}
use edukod_companion.App.Machine.{
  bad_flags, already_paired, positional, bad_credential_store, bad_address, in_store, at_gateway,
  PairFlags, Env, Machine, on_store, on_gateway, from_result, from_option, new_store, open_store,
  default_name,
}
use edukod_companion.App.Machine.Rules.{
  on_store-Post, on_gateway-Post, from_option-Post, from_result-Post, new_store-Post,
}
use edukod_companion.App.Pair.{
  choose_store, new_pairing, or_revoke, save_or_revoke, pair_enrolled, pair_checked, pair,
}

module _ {K : Type 0} (env : Env K) where
  -- The pairing is on disk, with what the school and the user gave, and all of that was checked.
  pub record IsPaired (flags : PairFlags) (v : Machine K) : Type 0 where
    pub origin : Url
    pub base : Url
    pub enrollment : Enrollment
    pub store : Store K
    pub chosen : choose_store env flags.credential_store ≡ some store
    pub school : IsOrigin env.network flags.school origin
    pub checked : validate_base_url env.network.urls env.resolve flags.local_base_url ≡ ok base
    pub local : IsLocalBase env.network.urls env.resolve base
    pub usable : IsUsable env.network flags.school enrollment
    pub stored :
        IsStored env.store_json store
          (new_pairing env flags origin base enrollment)
          enrollment.device_token
          v.world
    pub safe : All (IsSafe env.network flags.school) v.requests

  abbrev Anything : Machine K → Type 0
  Anything v = Unit {0}

  abbrev Checked : PairFlags → Url → Machine K → Type 0
  Checked flags base v =
      (validate_base_url env.network.urls env.resolve flags.local_base_url ≡ ok base)
      × (v.requests ≡ [])

  abbrev Sent : PairFlags → Machine K → Type 0
  Sent flags v = All (IsSafe env.network flags.school) v.requests

  or_revoke-Post :
      (flags : PairFlags) (store : Store K) (state : Pairing) (token : Bytes)
      (r : Result StoreError (Unit {0}) × World K) (v : Machine K)
      → Sent flags v
      → Post (λ u. IsStored env.store_json store state token) (λ w. Unit {0}) r
      → Post
          (λ u x. IsStored env.store_json store state token x.world × Sent flags x)
          Anything
          (or_revoke env state token r v)
  unfolding or_revoke
  or_revoke-Post flags store state token (ok u, w) v sent h = (h, sent)
  or_revoke-Post flags store state token (err e, w) v sent h = tt

  enrolled-IsPaired :
      (flags : PairFlags) (base : Url) (store : Store K) (v : Machine K)
      → choose_store env flags.credential_store ≡ some store
      → validate_base_url env.network.urls env.resolve flags.local_base_url ≡ ok base
      → v.requests ≡ []
      → Post (λ u. IsPaired flags) Anything (pair_enrolled env flags base store v)
  unfolding pair_enrolled save_or_revoke
  enrolled-IsPaired flags base store v chosen checked silent =
      let Q : Unit {0} → Machine K → Type 0 = λ u. IsPaired flags in
      let E : Enrollment → Machine K → Type 0 =
        λ e x. IsUsable env.network flags.school e × Sent flags x in
      continue-Post E Q Anything
        (on_gateway at_gateway (enroll env.network flags.school flags.code flags.device_name) v) _
        (on_gateway-Post E Anything at_gateway _ v (
          rw silent (
            Post-weaken
              (λ e sent.
                IsUsable env.network flags.school e × All (IsSafe env.network flags.school) sent)
              (λ e sent. E e (record v { requests = sent })) (All (IsSafe env.network flags.school))
              (λ sent. Unit {0}) _
              (enroll-Post env.network flags.school flags.code flags.device_name) (λ e s p. p)
              (λ s p. tt))))
        (λ e v1 p1.
          continue-Post (λ origin x. IsOrigin env.network flags.school origin × Sent flags x) Q
            Anything (on_gateway at_gateway (validate_school_origin env.network flags.school) v1) _
            (on_gateway-Post (λ origin x. IsOrigin env.network flags.school origin × Sent flags x)
              Anything at_gateway _ v1
              (Post-weaken
                (λ origin sent.
                  IsOrigin env.network flags.school origin
                  × All (IsSafe env.network flags.school) sent)
                (λ origin sent.
                  IsOrigin env.network flags.school origin
                  × Sent flags (record v1 { requests = sent }))
                (All (IsSafe env.network flags.school)) (λ sent. Unit {0}) _
                (validate_school_origin-Post env.network (All (IsSafe env.network flags.school))
                  flags.school v1.requests p1.1)
                (λ o s p. p) (λ s p. tt)))
            (λ origin v2 p2.
              let state : Pairing = new_pairing env flags origin base e in
              continue-Post
                (λ u x. IsStored env.store_json store state e.device_token x.world × Sent flags x) Q
                Anything (save_or_revoke env store state e.device_token v2) _
                (or_revoke-Post flags store state e.device_token _ v2 p2.1
                  (save-Post env.store_json store state e.device_token v2.world))
                (λ u x p3. record {
                  origin = origin;
                  base = base;
                  enrollment = e;
                  store = store;
                  chosen = chosen;
                  school = p2.0;
                  checked = checked;
                  local =
                      (validate_base_url-IsLocalBase env.network.urls env.resolve
                        flags.local_base_url base checked).0;
                  usable = p1.0;
                  stored = p3.0;
                  safe = p3.1;
                })))

  checked-IsPaired :
      (flags : PairFlags) (base : Url) (m : Machine K)
      → validate_base_url env.network.urls env.resolve flags.local_base_url ≡ ok base
      → m.requests ≡ []
      → Post (λ u. IsPaired flags) Anything (pair_checked env flags base m)
  unfolding pair_checked
  checked-IsPaired flags base m checked silent =
      let Q : Unit {0} → Machine K → Type 0 = λ u. IsPaired flags in
      let Silent : Machine K → Type 0 = λ v. v.requests ≡ [] in
      continue-Post (λ u. Silent) Q Anything (new_store (open_store env flags.config_directory) m) _
        (new_store-Post (λ u. Silent) Anything (open_store env flags.config_directory) m tt silent)
        (λ u v1 s1.
          continue-Post (λ there. Silent) Q Anything (on_store in_store exists v1) _
            (on_store-Post (λ there. Silent) Anything in_store exists v1
              (Post-weaken (λ there. Kept v1.world) (λ there w. Silent (record v1 { world = w }))
                (Kept v1.world) (λ w. Unit {0}) (exists v1.world)
                (exists-IsQuiet v1.world v1.world (refl, refl, refl)) (λ there w p. s1)
                (λ w p. tt)))
            (λ there v2 s2. guard-Post Q Anything there already_paired v2 _ tt (λ fresh.
              continue-Post
                (λ store v. (choose_store env flags.credential_store ≡ some store) × Silent v) Q
                Anything
                (from_option bad_credential_store (choose_store env flags.credential_store) v2) _
                (from_option-Post
                  (λ store v. (choose_store env flags.credential_store ≡ some store) × Silent v)
                  Anything bad_credential_store _ v2 tt (λ store found. (found, s2)))
                (λ store v3 p3. enrolled-IsPaired flags base store v3 p3.0 checked p3.1))))

  -- When `pair` succeeds, and nothing was sent before, the pairing that the flags ask for is stored,
  -- with a credential and a socket of the documented form at the school's own host, and with the
  -- local API's base that `ValidateBaseURL` makes of the flag, whose host resolves to loopback
  -- addresses only. Requests went to the school's own host only, over https.
  pub pair-IsPaired :
      (arguments : List Bytes) (m : Machine K)
      → m.requests ≡ []
      → (pair env arguments m).0 ≡ ok tt
      → (flags : PairFlags) × (env.parse_pair (default_name env.host_name) arguments ≡ some flags)
        × IsPaired flags (pair env arguments m).1
  unfolding pair
  pair-IsPaired arguments m silent succeeded =
      let Q : Unit {0} → Machine K → Type 0 = λ u v.
        (flags : PairFlags) × (env.parse_pair (default_name env.host_name) arguments ≡ some flags)
        × IsPaired flags v in
      let Silent : Machine K → Type 0 = λ v. v.requests ≡ [] in
      Post-ok Q Anything (pair env arguments m) tt
        (continue-Post
          (λ f v. (env.parse_pair (default_name env.host_name) arguments ≡ some f) × Silent v) Q
          Anything (from_option bad_flags (env.parse_pair (default_name env.host_name) arguments) m)
          _
          (from_option-Post
            (λ f v. (env.parse_pair (default_name env.host_name) arguments ≡ some f) × Silent v)
            Anything bad_flags _ m tt (λ f found. (found, silent)))
          (λ f v1 p1. guard-Post Q Anything f.has_arguments positional v1 _ tt (λ plain.
            continue-Post (Checked f) Q Anything
              (from_result bad_address
                (validate_base_url env.network.urls env.resolve f.local_base_url) v1)
              _
              (from_result-Post (Checked f) Anything bad_address _ v1 tt
                (λ base found. (found, p1.1)))
              (λ base v2 p2.
                Post-weaken (λ u. IsPaired f) Q Anything Anything _
                  (checked-IsPaired f base v2 p2.0 p2.1) (λ u x p. (f, p1.0, p)) (λ x p. tt)))))
        succeeded
