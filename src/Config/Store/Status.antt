-- ===== src/Config/Store/Status.antt =====
-- `SaveStatus`: what it leaves alone.
use edukod_companion.Base.{ℕ, ◌≡◌, refl, Option, none, some, [], ◌∷◌, ◌++◌, Bytes, Result}
use edukod_companion.Base.Triples.{Post-weaken, Post-any}
use edukod_companion.Config.FileSystem.{config_file, status_file, World, StoreError}
use edukod_companion.Config.Store.{
  RuntimeStatus, Store, StoreJson, save_status, save_encoded_status, atomic_write,
}
use edukod_companion.Config.Store.Atomic.{IsSaved, IsOutcome, atomic_write-Post}

module _ {K : Type 0} where
  -- The pairing's file and the keyring.
  abbrev pub SamePairing : World K → World K → Type 0
  SamePairing w0 w = (w.files config_file ≡ w0.files config_file) × (w.secrets ≡ w0.secrets)

module _ {K : Type 0} (json : StoreJson) (store : Store K) where
  encoded-SamePairing :
      (found : Option Bytes) (w : World K)
      → SamePairing w (save_encoded_status json store found w).1
  unfolding save_encoded_status
  encoded-SamePairing none w = (refl, refl)
  encoded-SamePairing (some payload) w =
      let text : Bytes = payload ++ b'\n' ∷ [] in
      let r : Result StoreError (Unit {0}) × World K = atomic_write status_file text w in
      Post-any (SamePairing w) r (
        Post-weaken (λ u. IsSaved status_file text w) (λ u. SamePairing w)
          (IsOutcome status_file text w) (SamePairing w) r (atomic_write-Post status_file text w)
          (λ u v p. p.2) (λ v p. p.1))

  -- `SaveStatus` leaves the pairing's file and the keyring alone, whichever of its calls fails.
  pub save_status-SamePairing :
      (status : RuntimeStatus) (now : ℕ) (w : World K)
      → SamePairing w (save_status json store status now w).1
  unfolding save_status
  save_status-SamePairing status now w = encoded-SamePairing _ w
