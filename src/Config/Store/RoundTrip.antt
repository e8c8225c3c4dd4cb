-- ===== src/Config/Store/RoundTrip.antt =====
-- `Load` after `Save`.
use edukod_companion.Base.{
  ◌≡◌, ◌≢◌, refl, ap, ◌∙◌, Bool, true, false, not, Option, none, some, [], ◌∷◌, ◌++◌, Bytes, ok,
  err, arith, Result, continue, fail_if, bytes_eq_iff, trim_space,
}
use edukod_companion.Config.FileSystem.{
  Node, regular, config_file, World, Io, StoreError, lstat, content_of, incomplete, call, call_with,
  read_file,
}
use edukod_companion.Config.Store.{
  Pairing, Keyring, Store, StoreJson, Decoded, whole, prepared, save, load, credential, is_complete,
  check_private, check_decoded,
}
use edukod_companion.Config.Store.Saved.{IsStored, IsKept, save-IsStored}

-- What a keyring promises: a credential without space at its ends, once stored, is found.
abbrev pub IsFaithful : {K : Type 0} → Option (Keyring K) → Type 0
IsFaithful {K} found =
    (keyring : Keyring K) (device token : Bytes) (before after : K)
    → found ≡ some keyring
    → trim_space token ≡ token
    → token ≢ []
    → keyring.store device token before ≡ (none, after)
    → keyring.load device after ≡ ok token

is_complete-prepared :
    (state : Pairing)
    → state.version ≡ 1
    → state.device_id ≢ []
    → state.web_socket_url ≢ []
    → state.local_base_url ≢ []
    → is_complete state ≡ true
unfolding is_complete
is_complete-prepared state v d s l = ground (
  arith,
  bytes_eq_iff state.device_id [],
  bytes_eq_iff state.web_socket_url [],
  bytes_eq_iff state.local_base_url [],
)

module _ {K : Type 0} (json : StoreJson) (store : Store K) where
  credential_stored :
      (state : Pairing) (token : Bytes) (stored : Bool) (w : World K)
      → IsFaithful store.keyring
      → trim_space token ≡ token
      → token ≢ []
      → IsKept json store store.keyring state.device_id token stored w
      → (credential json store (prepared json store state token stored) w).0 ≡ ok token
  unfolding credential
  credential_stored state token false w faithful trimmed nonempty kept =
      ground (arith, bytes_eq_iff token [])
  credential_stored state token true w faithful trimmed nonempty kept =
      let (keyring, there, (before, done')) = kept refl in
      rw (
        there,
        faithful keyring state.device_id token before w.secrets there trimmed nonempty done',
      )

  continue-ok :
      {A B : Type 0} (r : Result StoreError A × World K) (f : A → Io K B) (a : A) (w : World K)
      → r ≡ (ok a, w)
      → continue r f ≡ f a w
  continue-ok r f a w e = ap (λ x. continue x f) e

  quiet_call : (w : World K) → w.faults ≡ [] → call w ≡ (ok tt, w)
  unfolding call call_with
  quiet_call w quiet = rw quiet refl

  quiet_read :
      (payload : Bytes) (w : World K)
      → w.faults ≡ []
      → w.files config_file ≡ some (regular 0o600 payload)
      → read_file config_file w ≡ (ok payload, w)
  unfolding read_file
  quiet_read payload w quiet there =
      continue-ok (call w) _ tt w (quiet_call w quiet) ∙ ap (λ n. (content_of n, w)) there

  quiet_lstat :
      (payload : Bytes) (w : World K)
      → w.faults ≡ []
      → w.files config_file ≡ some (regular 0o600 payload)
      → lstat config_file w ≡ (ok (some (regular 0o600 payload)), w)
  quiet_lstat payload w quiet there =
      continue-ok (call w) _ tt w (quiet_call w quiet) ∙ ap (λ (n : Option Node). (ok n, w)) there

  decoded_ok :
      (state : Pairing) (d : Decoded) (w : World K)
      → d ≡ whole state
      → check_decoded d w ≡ (ok state, w)
  unfolding check_decoded
  decoded_ok state d w e = rw e refl

  complete_ok : (b : Bool) (w : World K) → b ≡ true → fail_if (not b) incomplete w ≡ (ok tt, w)
  complete_ok b w e = rw e refl

  load_found :
      (state : Pairing) (payload : Bytes) (w : World K)
      → w.faults ≡ []
      → w.files config_file ≡ some (regular 0o600 payload)
      → json.decode payload ≡ whole state
      → is_complete state ≡ true
      → load json store w
        ≡ continue {B = Pairing × Bytes} (credential json store state w) (λ t v. (ok (state, t), v))
  unfolding load check_private
  load_found state payload w quiet there decoded complete =
      continue-ok (lstat config_file w) _ (some (regular 0o600 payload)) w
        (quiet_lstat payload w quiet there)
      ∙ continue-ok (read_file config_file w) _ payload w (quiet_read payload w quiet there)
      ∙ continue-ok _ _ state w (decoded_ok state (json.decode payload) w decoded)
      ∙ continue-ok _ _ tt w (complete_ok (is_complete state) w complete)

  load_private :
      (state : Pairing) (token payload : Bytes) (w : World K)
      → w.faults ≡ []
      → w.files config_file ≡ some (regular 0o600 payload)
      → json.decode payload ≡ whole state
      → is_complete state ≡ true
      → (credential json store state w).0 ≡ ok token
      → (load json store w).0 ≡ ok (state, token)
  load_private state token payload w quiet there decoded complete found =
      ap (λ r. r.0) (load_found state payload w quiet there decoded complete)
      ∙ with_credential (credential json store state w) found
    where
      with_credential :
          (r : Result StoreError Bytes × World K)
          → r.0 ≡ ok token
          → (continue {B = Pairing × Bytes} r (λ t v. (ok (state, t), v))).0 ≡ ok (state, token)
      with_credential (ok t, v) e = ground (arith)
      with_credential (err x, v) e = cc

  -- The store that loads knows the keyring of the one that saved, if that had one.
  abbrev pub KnowsKeyring : Store K → Type 0
  KnowsKeyring saver =
      (keyring : Keyring K) → saver.keyring ≡ some keyring → store.keyring ≡ some keyring

  -- A stored pairing loads, with its credential, as long as the operating system's calls succeed.
  pub load-IsStored :
      (saver : Store K) (state : Pairing) (token : Bytes) (w : World K)
      → KnowsKeyring saver
      → (s : IsStored json saver state token w)
      → json.decode (s.text ++ b'\n' ∷ []) ≡ whole (prepared json store state token s.stored)
      → IsFaithful store.keyring
      → trim_space token ≡ token
      → state.web_socket_url ≢ []
      → state.local_base_url ≢ []
      → (load json store (record w { faults = [] })).0
        ≡ ok (prepared json store state token s.stored, token)
  load-IsStored saver state token w knows s decodes faithful trimmed socket local =
      let p : Pairing = prepared json store state token s.stored in
      load_private p token (s.text ++ b'\n' ∷ []) (record w { faults = [] }) refl s.file decodes
        (is_complete-prepared p refl s.identity.0 socket local)
        (credential_stored state token s.stored (record w { faults = [] }) faithful trimmed
          s.identity.1 kept)
    where
      kept : IsKept json store store.keyring state.device_id token s.stored w
      kept t = let (keyring, there, rest) = s.kept t in (keyring, knows keyring there, rest)

  -- If `Save` succeeds, then `Load` returns the saved pairing with its credential, as long as the
  -- operating system's calls succeed. The conditions: what encoding/json gave for the pairing is
  -- decoded to it again, the keyring gives back what it stored, the credential has no space at its
  -- ends, and the pairing has its two URLs.
  pub load-save :
      (state : Pairing) (token : Bytes) (w : World K)
      → ((stored : Bool) (text : Bytes)
          → json.encode (prepared json store state token stored) ≡ some text
          → json.decode (text ++ b'\n' ∷ []) ≡ whole (prepared json store state token stored))
      → IsFaithful store.keyring
      → trim_space token ≡ token
      → state.web_socket_url ≢ []
      → state.local_base_url ≢ []
      → (save json store state token w).0 ≡ ok tt
      → (stored : Bool) × ((load json store
            (record (save json store state token w).1 { faults = [] })).0
          ≡ ok (prepared json store state token stored, token))
  load-save state token w decodes faithful trimmed socket local saved =
      let s : IsStored json store state token _ = save-IsStored json store state token w saved in
      (
        s.stored,
        load-IsStored store state token _ (λ k there. there) s (decodes s.stored s.text s.encoded)
            faithful trimmed socket local,
      )
