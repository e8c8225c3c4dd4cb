-- ===== src/Config/Store/Saved.antt =====
-- `Save`: what a pairing that was saved has left on disk and in the keyring.
use edukod_companion.Base.{
  ◌≡◌, ◌≢◌, refl, sym, ap, ◌∙◌, Bool, true, false, ◌||◌, not, ◌&&◌, Option, none, some, [], ◌∷◌,
  ◌++◌, Bytes, bytes_eq, ok, err, arith, Result, bytes_eq_iff,
}
use edukod_companion.Config.FileSystem.{
  regular, config_file, World, StoreError, identity_required, keyring_required,
}
use edukod_companion.Config.Store.{
  Pairing, Keyring, Store, StoreJson, atomic_write, prepared, keyring_store, or_forget,
  save_encoded, save,
}
use edukod_companion.Base.Triples.{Post, Post-weaken, Post-ok, fail_if-Post, continue-Post}
use edukod_companion.Config.Store.Directory.{IsPrivateDirectory}
use edukod_companion.Config.Store.Atomic.{IsSaved, atomic_write-Post}

both_named : (s t : Bytes) → bytes_eq s [] || bytes_eq t [] ≡ false → (s ≢ []) × (t ≢ [])
both_named s t h = (λ e. ground (arith, bytes_eq_iff s []), λ e. ground (arith, bytes_eq_iff t []))

module _ {K : Type 0} (json : StoreJson) (store : Store K) where
  abbrev Anything : World K → Type 0
  Anything w = Unit {0}

  -- If the credential went to the keyring, the keyring's last change was its storing.
  abbrev pub IsKept : Option (Keyring K) → Bytes → Bytes → Bool → World K → Type 0
  IsKept found device token stored w =
      stored ≡ true
      → (keyring : Keyring K) × (found ≡ some keyring)
        × ((before : K) × (keyring.store device token before ≡ (none, w.secrets)))

  keyring_store-Post :
      (found : Option (Keyring K)) (device token : Bytes) (w : World K)
      → Post (IsKept found device token) Anything (keyring_store json store found device token w)
  unfolding keyring_store
  keyring_store-Post none device token w = λ e. cc
  keyring_store-Post (some keyring) device token w =
      by_answer (keyring.store device token w.secrets) refl
    where
      by_answer :
          (answer : Option Bytes × K)
          → keyring.store device token w.secrets ≡ answer
          → IsKept
              (some keyring)
              device
              token
              (elim answer.0 [ none ↦ true | some _ ↦ false ])
              (record w { secrets = answer.1 })
      by_answer (none, secrets) e = λ t. (keyring, refl, (w.secrets, e))
      by_answer (some text, secrets) e = λ t. cc

  -- What a pairing has left, once it was saved: the file with its encoding, for the owner only, and
  -- a credential in the file or in the keyring.
  pub record IsStored (state : Pairing) (token : Bytes) (w : World K) : Type 0 where
    pub stored : Bool
    pub text : Bytes
    pub encoded : json.encode (prepared json store state token stored) ≡ some text
    pub file : w.files config_file ≡ some (regular 0o600 (text ++ b'\n' ∷ []))
    pub folder : IsPrivateDirectory w
    pub kept : IsKept store.keyring state.device_id token stored w
    pub identity : (state.device_id ≢ []) × (token ≢ [])

  or_forget-Post :
      (state : Pairing) (Q : World K → Type 0) (r : Result StoreError (Unit {0}) × World K)
      → Post (λ u. Q) Anything r
      → Post (λ u. Q) Anything (or_forget json store state r)
  unfolding or_forget
  or_forget-Post state Q (ok u, w) h = h
  or_forget-Post state Q (err e, w) h = tt

  save_encoded-Post :
      (state : Pairing) (token : Bytes) (stored : Bool) (w : World K) (found : Option Bytes)
      → (state.device_id ≢ []) × (token ≢ [])
      → IsKept store.keyring state.device_id token stored w
      → json.encode (prepared json store state token stored) ≡ found
      → Post
          (λ u. IsStored state token)
          Anything
          (save_encoded json store (prepared json store state token stored) found w)
  unfolding save_encoded
  save_encoded-Post state token stored w none identity kept e = tt
  save_encoded-Post state token stored w (some text) identity kept e =
      or_forget-Post (prepared json store state token stored) (IsStored state token) _ (
        Post-weaken (λ u. IsSaved config_file (text ++ b'\n' ∷ []) w) (λ u. IsStored state token) _
          Anything (atomic_write config_file (text ++ b'\n' ∷ []) w)
          (atomic_write-Post config_file (text ++ b'\n' ∷ []) w)
          (λ u v s. record {
            stored = stored;
            text = text;
            encoded = e;
            file = s.0;
            folder = s.3;
            kept = λ t.
                let (keyring, there, (before, done')) = kept t in
                (keyring, there, (before, done' ∙ ap (λ (k : K). (none, k)) (sym s.2.1)));
            identity = identity;
          })
          (λ v f. tt))

  pub save-Post :
      (state : Pairing) (token : Bytes) (w : World K)
      → Post (λ u. IsStored state token) Anything (save json store state token w)
  unfolding save
  save-Post state token w =
      let Q : World K → Type 0 = IsStored state token in
      continue-Post (λ u v. (bytes_eq state.device_id [] || bytes_eq token [] ≡ false) × Anything v)
        (λ u. Q) Anything _ _
        (fail_if-Post Anything Anything (bytes_eq state.device_id [] || bytes_eq token [])
          identity_required w tt tt)
        (λ u v1 named.
          continue-Post (IsKept store.keyring state.device_id token) (λ u. Q) Anything _ _
            (keyring_store-Post store.keyring state.device_id token v1)
            (λ stored v2 kept.
              continue-Post
                (λ u v.
                  (not stored && store.require_keyring ≡ false)
                  × IsKept store.keyring state.device_id token stored v)
                (λ u. Q) Anything _ _
                (fail_if-Post (IsKept store.keyring state.device_id token stored) Anything
                  (not stored && store.require_keyring) keyring_required v2 kept tt)
                (λ u v3 h.
                  save_encoded-Post state token stored v3 _
                    (both_named state.device_id token named.0) h.1 refl)))

  -- A pairing that `Save` reports as saved is stored, whatever was there before: completely, with
  -- its credential, and readable for the owner only.
  pub save-IsStored :
      (state : Pairing) (token : Bytes) (w : World K)
      → (save json store state token w).0 ≡ ok tt
      → IsStored state token (save json store state token w).1
  save-IsStored state token w h =
      Post-ok (λ u. IsStored state token) Anything (save json store state token w) tt
        (save-Post state token w) h
