-- ===== src/Config/Store.antt =====
-- store.go: `Store` and its operations.
pub mod Triples
pub mod Fill
pub mod Directory
pub mod Atomic
pub mod Saved
pub mod Quiet
pub mod Status
pub mod Deleted
pub mod Loaded
pub mod RoundTrip
use edukod_companion.Base.{
  ℕ, ◌==◌, Bool, true, false, not, ◌&&◌, ◌||◌, Option, none, some, List, [], ◌∷◌, ◌++◌, Bytes,
  bytes_eq, length, take, ltb, if◌then◌else◌, Result, ok, err, pure, fail_if, ◌>>=◌, ◌>>◌,
}
use edukod_companion.Config.FileSystem.{
  Node, regular, directory, symlink, special, File, config_file, status_file, OsError, not_exist,
  StoreError, os, not_real_directory, symlink_write, symlink_delete, identity_required,
  keyring_required, not_encodable, not_regular, bad_permissions, invalid_json, trailing_data,
  incomplete, keyring_unavailable, credential_missing, keyring_failed, World, is_private, Io, fail,
  lstat_directory, lstat, mkdir_all, chmod_directory, create_temp, chmod_temp, write_temp, rename,
  chmod, then_remove_temp, read_file, remove, call,
}

abbrev pub current_version : ℕ
current_version = 1

pub record Pairing : Type 0 where
  pub version : ℕ
  pub school_origin : Bytes
  pub device_id : Bytes
  pub device_name : Bytes
  pub web_socket_url : Bytes
  pub local_base_url : Bytes
  pub paired_at : ℕ
  pub token_in_keyring : Bool
  pub device_token : Bytes

pub record RuntimeStatus : Type 0 where
  pub connected : Bool
  pub device_id : Bytes
  pub last_connected_at : Option ℕ
  pub last_event_at : ℕ
  pub last_error : Bytes

-- The interface `Keyring`, over the keyring's own state. `none` is a nil error.
pub record Keyring (K : Type 0) : Type 0 where
  pub store : Bytes → Bytes → K → Option Bytes × K
  pub load : Bytes → K → Result Bytes Bytes
  pub delete : Bytes → K → K

pub data Decoded : Type 0 where
  malformed trailing : Decoded
  whole : Pairing → Decoded

-- encoding/json on the two records: `MarshalIndent`, the strict decoder of `Load` with its test of
-- what follows, and the `Unmarshal` of `LoadStatus`.
pub record StoreJson : Type 0 where
  pub encode : Pairing → Option Bytes
  pub decode : Bytes → Decoded
  pub encode_status : RuntimeStatus → Option Bytes
  pub decode_status : Bytes → Option RuntimeStatus

unfoldable pub is_complete : Pairing → Bool
is_complete state =
    (state.version == current_version)
    && not (bytes_eq state.device_id [])
    && not (bytes_eq state.web_socket_url [])
    && not (bytes_eq state.local_base_url [])

module _ {K : Type 0} where
  unfoldable pub make_directory : Option Node → Io K (Option Node)
  make_directory (some found) = pure (some found)
  make_directory none = do mkdir_all; lstat_directory

  unfoldable pub check_directory : Option Node → Io K (Unit {0})
  check_directory none = fail (os not_exist)
  check_directory (some (directory permissions)) =
      if is_private permissions then pure tt else chmod_directory 0o700
  check_directory (some _) = fail not_real_directory

  unfoldable pub ensure_private_directory : Io K (Unit {0})
  unfolding make_directory check_directory
  ensure_private_directory = do
    found ← lstat_directory
    info ← make_directory found
    check_directory info

  unfoldable pub check_target : Option Node → Io K (Unit {0})
  check_target (some (symlink _)) = fail symlink_write
  check_target _ = pure tt

  -- `atomicWrite` from the temporary file's creation to the last `os.Chmod`. The calls of `Sync` and
  -- `Close` do nothing to what the model keeps, but may fail.
  unfoldable pub fill_and_rename : File → Bytes → Io K (Unit {0})
  fill_and_rename file payload = do
    chmod_temp 0o600
    write_temp payload
    call
    call
    rename file
    chmod file 0o600

  unfoldable pub atomic_write : File → Bytes → Io K (Unit {0})
  unfolding check_target fill_and_rename
  atomic_write file payload = do
    ensure_private_directory
    info ← lstat file
    check_target info
    create_temp
    then_remove_temp (fill_and_rename file payload)

  unfoldable pub exists : Io K Bool
  exists = do info ← lstat config_file; pure (elim info [ none ↦ false | some _ ↦ true ])

  remove_found : File → Option Node → Io K (Unit {0})
  remove_found file none = pure tt
  remove_found file (some (symlink _)) = fail symlink_delete
  remove_found file (some _) = remove file

  -- One round of the loop of `Delete`.
  unfoldable pub remove_file : File → Io K (Unit {0})
  unfolding remove_found
  remove_file file = do info ← lstat file; remove_found file info

  check_private : Option Node → Io K (Unit {0})
  check_private none = fail (os not_exist)
  check_private (some (regular permissions _)) =
      fail_if (not (is_private permissions)) bad_permissions
  check_private (some _) = fail not_regular

  check_decoded : Decoded → Io K Pairing
  check_decoded malformed = fail invalid_json
  check_decoded trailing = fail trailing_data
  check_decoded (whole state) = pure state

-- `Store` without its directory, which is the world's.
pub record Store (K : Type 0) : Type 0 where
  pub keyring : Option (Keyring K)
  pub require_keyring : Bool

module _ {K : Type 0} (json : StoreJson) (store : Store K) where
  keyring_store : Option (Keyring K) → Bytes → Bytes → Io K Bool
  keyring_store none device token w = (ok false, w)
  keyring_store (some keyring) device token w =
      let (failed, secrets) = keyring.store device token w.secrets in
      (ok (elim failed [ none ↦ true | some _ ↦ false ]), record w { secrets = secrets })

  -- The state that `Save` writes.
  abbrev pub prepared : Pairing → Bytes → Bool → Pairing
  prepared state token stored = record state {
    version = current_version;
    token_in_keyring = stored;
    device_token = if stored then [] else token;
  }

  forget_secret : Option (Keyring K) → Pairing → World K → World K
  forget_secret none state w = w
  forget_secret (some keyring) state w =
      if state.token_in_keyring
      then record w { secrets = keyring.delete state.device_id w.secrets }
      else w

  -- A failed write takes the new secret back.
  or_forget :
      Pairing → Result StoreError (Unit {0}) × World K → Result StoreError (Unit {0}) × World K
  unfolding forget_secret
  or_forget state (ok u, w) = (ok u, w)
  or_forget state (err e, w) = (err e, forget_secret store.keyring state w)

  save_encoded : Pairing → Option Bytes → Io K (Unit {0})
  unfolding or_forget
  save_encoded state none w = (err not_encodable, w)
  save_encoded state (some payload) w =
      or_forget state (atomic_write config_file (payload ++ b'\n' ∷ []) w)

  unfoldable pub save : Pairing → Bytes → Io K (Unit {0})
  unfolding keyring_store save_encoded
  save state token = do
    fail_if (bytes_eq state.device_id [] || bytes_eq token []) identity_required
    stored ← keyring_store store.keyring state.device_id token
    fail_if (not stored && store.require_keyring) keyring_required
    save_encoded (prepared state token stored) (json.encode (prepared state token stored))

  keyring_load : Option (Keyring K) → Pairing → Io K Bytes
  keyring_load none state w = (err keyring_unavailable, w)
  keyring_load (some keyring) state w = (
    elim (keyring.load state.device_id w.secrets) [
      | ok token ↦ ok token
      | err text ↦ err (keyring_failed text)
    ],
    w,
  )

  credential : Pairing → Io K Bytes
  unfolding keyring_load
  credential state =
      if state.token_in_keyring
      then keyring_load store.keyring state
      else if bytes_eq state.device_token []
      then fail credential_missing
      else pure state.device_token

  unfoldable pub load : Io K (Pairing × Bytes)
  unfolding check_private check_decoded credential
  load = do
    info ← lstat config_file
    check_private info
    payload ← read_file config_file
    state ← check_decoded (json.decode payload)
    fail_if (not (is_complete state)) incomplete
    token ← credential state
    pure (state, token)

  -- `Delete` drops the secret of a state that loads.
  forget_loaded : Result StoreError (Pairing × Bytes) × World K → World K
  unfolding forget_secret
  forget_loaded (ok (state, token), w) = forget_secret store.keyring state w
  forget_loaded (err e, w) = w

  unfoldable pub delete : Io K (Unit {0})
  unfolding forget_loaded
  delete w = (do remove_file config_file; remove_file status_file) (forget_loaded (load w))

  save_encoded_status : Option Bytes → Io K (Unit {0})
  save_encoded_status none = fail not_encodable
  save_encoded_status (some payload) = atomic_write status_file (payload ++ b'\n' ∷ [])

  abbrev pub limited : Bytes → Bytes
  limited text = if ltb 500 (length text) then take 500 text else text

  -- `now` is `time.Now().UTC()`.
  unfoldable pub save_status : RuntimeStatus → ℕ → Io K (Unit {0})
  unfolding save_encoded_status
  save_status status now = save_encoded_status (
      json.encode_status
        (record status { last_event_at = now; last_error = limited status.last_error }))

  check_status : Option RuntimeStatus → Io K RuntimeStatus
  check_status none = fail invalid_json
  check_status (some status) = pure status

  unfoldable pub load_status : Io K RuntimeStatus
  unfolding check_status
  load_status = do payload ← read_file status_file; check_status (json.decode_status payload)
