-- ===== src/App/Unpair/Revoked.antt =====
-- `unpair`: nothing is forgotten here before the school has taken the credential back.
use edukod_companion.Base.{◌≡◌, refl, ◌⊎◌, inl, inr, false, some, List, Bytes, Result, ok, err}
use edukod_companion.Base.Triples.{Post, Post-weaken, continue-Post}
use edukod_companion.Config.FileSystem.{World, StoreError}
use edukod_companion.Config.Store.{Pairing, load, delete}
use edukod_companion.Config.Store.Directory.{Kept}
use edukod_companion.Config.Store.Quiet.{load-IsQuiet}
use edukod_companion.Config.Store.Deleted.{IsUnpaired, delete-Post}
use edukod_companion.Gateway.Client.{revoke}
use edukod_companion.Gateway.Client.Revoked.{IsRevoked, revoke-IsRevoked}
use edukod_companion.App.Machine.{
  bad_flags, in_store, not_revoked, Env, Machine, UnpairFlags, on_store, on_gateway, from_option,
  new_store, open_store, default_store,
}
use edukod_companion.App.Machine.Rules.{
  on_store-Post, on_gateway-Post, from_option-Post, new_store-Post,
}
use edukod_companion.App.Unpair.{delete_and_say, revoke_unless, unpair_loaded, after_load, unpair}

module _ {K : Type 0} (env : Env K) where
  -- The school has taken back the credential of the pairing that was loaded.
  abbrev pub WasRevoked : Machine K → Machine K → Type 0
  WasRevoked m v =
      (state : Pairing) × (token : Bytes) × ((load env.store_json (default_store env) m.world).0
        ≡ ok (state, token))
      × IsRevoked env.network state.school_origin token m.requests v.requests

  abbrev pub IsSafe : Machine K → Machine K → Type 0
  IsSafe m v = Kept m.world v.world ⊎ WasRevoked m v

  abbrev Gone : Machine K → Machine K → Type 0
  Gone m v = IsUnpaired v.world × WasRevoked m v

  delete-Gone :
      (line : Bytes) (m v : Machine K)
      → WasRevoked m v
      → Post (λ u. Gone m) (IsSafe m) (delete_and_say env line v)
  unfolding delete_and_say
  delete-Gone line m v h =
      continue-Post (λ u. Gone m) (λ u. Gone m) (IsSafe m)
        (on_store in_store (delete env.store_json (default_store env)) v) _
        (on_store-Post (λ u. Gone m) (IsSafe m) in_store (delete env.store_json (default_store env))
          v
          (Post-weaken (λ u. IsUnpaired) (λ u w. Gone m (record v { world = w })) (λ w. Unit {0})
            (λ w. IsSafe m (record v { world = w })) _
            (delete-Post env.store_json (default_store env) v.world) (λ u w p. (p, h))
            (λ w p. inr h)))
        (λ u x p. p)

  loaded-Gone :
      (m v : Machine K) (loaded : Result StoreError (Pairing × Bytes))
      → (load env.store_json (default_store env) m.world).0 ≡ loaded
      → Kept m.world v.world
      → v.requests ≡ m.requests
      → Post (λ u. Gone m) (IsSafe m) (unpair_loaded env false loaded v)
  unfolding unpair_loaded revoke_unless
  loaded-Gone m v (err e) same kept quiet = inl kept
  loaded-Gone m v (ok (state, token)) same kept quiet =
      continue-Post (λ u. WasRevoked m) (λ u. Gone m) (IsSafe m)
        (on_gateway not_revoked (revoke env.network state.school_origin token) v) _
        (on_gateway-Post (λ u. WasRevoked m) (IsSafe m) not_revoked
          (revoke env.network state.school_origin token) v
          (Post-weaken (λ u. IsRevoked env.network state.school_origin token v.requests)
            (λ u sent. WasRevoked m (record v { requests = sent })) (λ sent. Unit {0})
            (λ sent. IsSafe m (record v { requests = sent })) _
            (revoke-IsRevoked env.network state.school_origin token v.requests)
            (λ u sent p. (state, token, same, rw (← quiet) p)) (λ sent p. inl kept)))
        (λ u x p. delete-Gone _ m x p)

  after_load-Gone :
      (m : Machine K) (r : Result StoreError (Pairing × Bytes) × World K)
      → (load env.store_json (default_store env) m.world).0 ≡ r.0
      → Post (λ a. Kept m.world) (Kept m.world) r
      → Post (λ u. Gone m) (IsSafe m) (after_load env false r m)
  unfolding after_load
  after_load-Gone m (ok found, w) same kept =
      loaded-Gone m (record m { world = w }) (ok found) same kept refl
  after_load-Gone m (err e, w) same kept =
      loaded-Gone m (record m { world = w }) (err e) same kept refl

  -- Without `local-only`: when `unpair` succeeds, no file of the pairing is left, and the school
  -- has answered that the device is gone. When it fails, either the files and the keyring are as
  -- they were, or the school has answered so too.
  pub unpair-IsSafe :
      (arguments : List Bytes) (flags : UnpairFlags) (m : Machine K)
      → env.parse_unpair arguments ≡ some flags
      → flags.local_only ≡ false
      → Post
          (λ u v. IsUnpaired v.world × WasRevoked m v)
          (λ v. Kept m.world v.world ⊎ WasRevoked m v)
          (unpair env arguments m)
  unfolding unpair
  unpair-IsSafe arguments flags m parsed remote =
      continue-Post (λ f v. (f.local_only ≡ false) × (v ≡ m)) (λ u. Gone m) (IsSafe m)
        (from_option bad_flags (env.parse_unpair arguments) m) _
        (from_option-Post (λ f v. (f.local_only ≡ false) × (v ≡ m)) (IsSafe m) bad_flags
          (env.parse_unpair arguments) m (inl (refl, refl, refl))
          (λ f found. (same_flags f found, refl)))
        (λ f v same.
          continue-Post (λ u v. v ≡ m) (λ u. Gone m) (IsSafe m)
            (new_store (open_store env f.config_directory) v) _
            (new_store-Post (λ u x. x ≡ m) (IsSafe m) (open_store env f.config_directory) v
              (rw same.1 (inl (refl, refl, refl))) same.1)
            (λ u x h.
              rw (same.0, h)
                (after_load-Gone m (load env.store_json (default_store env) m.world) refl (
                  load-IsQuiet env.store_json (default_store env) m.world m.world
                    (refl, refl, refl)))))
    where
      same_flags : (f : UnpairFlags) → env.parse_unpair arguments ≡ some f → f.local_only ≡ false
      same_flags f found = cc
