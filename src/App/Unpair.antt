-- ===== src/App/Unpair.antt =====
-- app.go, `unpair`: the device is revoked at the school, and then forgotten here.
pub mod Revoked
use edukod_companion.Base.{
  Bool, true, false, List, [], ◌∷◌, ◌++◌, Bytes, codes, Result, ok, err, pure, ◌>>=◌, ◌>>◌,
}
use edukod_companion.Config.FileSystem.{World, StoreError}
use edukod_companion.Config.Store.{Pairing, load, delete}
use edukod_companion.Gateway.Client.{revoke}
use edukod_companion.App.Machine.{
  bad_flags, in_store, not_revoked, Env, Machine, Command, on_store, on_gateway, from_option, print,
  new_store, open_store, default_store,
}

module _ {K : Type 0} (env : Env K) where
  delete_and_say : Bytes → Command K (Unit {0})
  delete_and_say line = do on_store in_store (delete env.store_json (default_store env)); print line

  revoke_unless : Bool → Pairing → Bytes → Command K (Unit {0})
  revoke_unless true state token = pure tt
  revoke_unless false state token =
      on_gateway not_revoked (revoke env.network state.school_origin token)

  -- A pairing that does not load is removed only with `local-only`.
  unpair_loaded : Bool → Result StoreError (Pairing × Bytes) → Command K (Unit {0})
  unfolding delete_and_say revoke_unless
  unpair_loaded true (err e) = delete_and_say (
      codes "Invalid local companion state removed; revoke any remaining device in the "
      ++ codes "EduKod admin panel.")
  unpair_loaded false (err e) = λ m. (err (in_store e), m)
  unpair_loaded local_only (ok (state, token)) = do
    revoke_unless local_only state token
    delete_and_say (codes "Local companion credentials removed.")

  after_load : Bool → Result StoreError (Pairing × Bytes) × World K → Command K (Unit {0})
  unfolding unpair_loaded
  after_load local_only (loaded, w) m = unpair_loaded local_only loaded (record m { world = w })

  unfoldable pub unpair : List Bytes → Command K (Unit {0})
  unfolding after_load
  unpair arguments = do
    flags ← from_option bad_flags (env.parse_unpair arguments)
    new_store (open_store env flags.config_directory)
    λ m. after_load flags.local_only (load env.store_json (default_store env) m.world) m
