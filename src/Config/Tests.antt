-- ===== src/Config/Tests.antt =====
-- Runs of the store, and its theorems at concrete worlds.
use edukod_companion.Base.{
  ◌≡◌, refl, ap, true, false, Bool, Option, none, some, List, [], ◌∷◌, ◌++◌, Bytes, codes, ok, err,
  Result, if◌then◌else◌, trim_space, bytes_eq, ◌==◌,
}
use edukod_companion.Config.FileSystem.{
  regular, config_file, World, os, fault, call, call_with, rename, rename_onto, replace, read_file,
  content_of, bad_permissions,
}
use edukod_companion.Config.Store.{
  Pairing, Keyring, Store, StoreJson, Decoded, malformed, whole, prepared, atomic_write,
  ensure_private_directory, fill_and_rename, save, load, delete, remove_file, is_complete,
}
use edukod_companion.Config.SecretTool.{
  Run, Programs, secret_tool_keyring, IsDocumented, secret_tool-IsFaithful,
}
use edukod_companion.Base.Triples.{Post}
use edukod_companion.Config.Store.Atomic.{IsSaved, IsOutcome, atomic_write-Post}
use edukod_companion.Config.Store.Saved.{IsStored, save-IsStored}
use edukod_companion.Config.Store.RoundTrip.{IsFaithful, load-save}
use edukod_companion.Config.Store.Loaded.{IsLoadable, load-IsLoadable}
use edukod_companion.Config.Store.Deleted.{IsUnpaired, delete-IsUnpaired}

abbrev token : Bytes
token = codes "secret"

abbrev pairing : Pairing
pairing = record {
  version = 1;
  school_origin = codes "https://school.example";
  device_id = codes "device-1";
  device_name = codes "desk";
  web_socket_url = codes "wss://school.example/ws";
  local_base_url = codes "http://127.0.0.1/v1";
  paired_at = 7;
  token_in_keyring = false;
  device_token = [];
}

-- An encoding of this one pairing, by where its credential is.
encode_pairing : Pairing → Option Bytes
encode_pairing p = some ((if p.token_in_keyring then b'k' else b'f') ∷ [])

decode_pairing : Bytes → Decoded
decode_pairing [] = malformed
decode_pairing (c ∷ cs) =
    if c == b'k'
    then whole (record pairing { token_in_keyring = true })
    else whole (record pairing { device_token = token })

abbrev json : StoreJson
json = record {
  encode = encode_pairing;
  decode = decode_pairing;
  encode_status = λ s. none;
  decode_status = λ s. none;
}

-- A keyring with room for one credential.
memory_load : Bytes → Option Bytes → Result Bytes Bytes
memory_load device none = err []
memory_load device (some found) = ok found

abbrev memory : Keyring (Option Bytes)
memory = record {
  store = λ device found before. (none, some found);
  load = memory_load;
  delete = λ device before. none;
}

abbrev store : Store (Option Bytes)
store = record { keyring = some memory; require_keyring = false }

abbrev fresh : List (Option Bytes) → World (Option Bytes)
fresh faults = record {
  store_directory = none;
  files = λ f. none;
  temporary = none;
  removal_failed = false;
  faults = faults;
  secrets = none;
}

saved_first : (save json store pairing token (fresh [])).0 ≡ ok tt
unfolding save atomic_write ensure_private_directory fill_and_rename call call_with rename
    rename_onto encode_pairing bytes_eq
saved_first = refl

-- The keyring has the credential, and the file does not.
saved_where : (save json store pairing token (fresh [])).1.secrets ≡ some token
unfolding save atomic_write ensure_private_directory fill_and_rename call call_with rename
    rename_onto encode_pairing bytes_eq
saved_where = refl

-- The first call fails: the new secret is taken back.
taken_back :
    ((save json store pairing token (fresh (some (codes "EIO") ∷ []))).0
      ≡ err (os (fault (codes "EIO"))))
    × ((save json store pairing token (fresh (some (codes "EIO") ∷ []))).1.secrets ≡ none)
unfolding save atomic_write ensure_private_directory fill_and_rename call call_with rename
    rename_onto encode_pairing bytes_eq
taken_back = (refl, refl)

text_of : (text found : Bytes) → ◌≡◌ {A = Option Bytes} (some found) (some text) → found ≡ text
text_of text found e = cc

keyring_of :
    (keyring : Keyring (Option Bytes))
    → ◌≡◌ {A = Option (Keyring (Option Bytes))} (some memory) (some keyring)
    → memory ≡ keyring
keyring_of keyring e = cc

secret_of :
    (found : Bytes) (after : Option Bytes)
    → ◌≡◌ {A = Option Bytes × Option Bytes} (none, some found) (none, after)
    → some found ≡ after
secret_of found after e = ap (λ p. p.1) e

token_trimmed : trim_space token ≡ token
unfolding trim_space
token_trimmed = refl

pairing_decodes :
    (stored : Bool) (text : Bytes)
    → json.encode (prepared json store pairing token stored) ≡ some text
    → json.decode (text ++ b'\n' ∷ []) ≡ whole (prepared json store pairing token stored)
unfolding encode_pairing decode_pairing
pairing_decodes true text e = rw (← text_of text (b'k' ∷ []) e) refl
pairing_decodes false text e = rw (← text_of text (b'f' ∷ []) e) refl

store-IsFaithful : IsFaithful store.keyring
unfolding memory_load
store-IsFaithful keyring device found before after e trimmed nonempty stored =
    is_memory (keyring_of keyring e) device found before after stored
  where
    is_memory :
        memory ≡ keyring
        → (d f : Bytes) (x y : Option Bytes) → keyring.store d f x ≡ (none, y)
        → keyring.load d y ≡ ok f
    is_memory k d f x y h = rw (← k) (rw (← secret_of f y (rw (← k) at h)) refl)

load-save_example :
    (stored : Bool) × ((load json store
        (record (save json store pairing token (fresh [])).1 { faults = [] })).0
      ≡ ok (prepared json store pairing token stored, token))
load-save_example =
    load-save json store pairing token (fresh []) pairing_decodes store-IsFaithful token_trimmed
      (λ e. cc) (λ e. cc) saved_first

save-IsStored_example :
    IsStored json store pairing token (save json store pairing token (fresh [])).1
save-IsStored_example = save-IsStored json store pairing token (fresh []) saved_first

atomic_write-Post_example :
    Post
      (λ u. IsSaved config_file (1 ∷ []) (fresh (none ∷ some [] ∷ [])))
      (IsOutcome config_file (1 ∷ []) (fresh (none ∷ some [] ∷ [])))
      (atomic_write config_file (1 ∷ []) (fresh (none ∷ some [] ∷ [])))
atomic_write-Post_example = atomic_write-Post config_file (1 ∷ []) (fresh (none ∷ some [] ∷ []))

abbrev paired : World (Option Bytes)
paired = record (fresh []) { files = λ f. some (regular 0o600 (b'f' ∷ [])) }

loads : (load json store paired).0 ≡ ok (record pairing { device_token = token }, token)
unfolding load call call_with read_file content_of decode_pairing is_complete bytes_eq
loads = refl

-- A file that others may read is refused.
shared_refused :
    (load json store (record (fresh []) { files = λ f. some (regular 0o644 (b'f' ∷ [])) })).0
    ≡ err bad_permissions
unfolding load call call_with
shared_refused = refl

load-IsLoadable_example : IsLoadable json store paired (record pairing { device_token = token })
load-IsLoadable_example =
    load-IsLoadable json store paired (record pairing { device_token = token }) token loads

deleted : (delete json store paired).0 ≡ ok tt
unfolding delete load call call_with read_file content_of decode_pairing is_complete bytes_eq
    remove_file replace
deleted = refl

delete-IsUnpaired_example : IsUnpaired (delete json store paired).1
delete-IsUnpaired_example = delete-IsUnpaired json store paired deleted

-- A secret-tool with room for one secret.
run_tool : Bytes → List Bytes → Bytes → Bytes → Run × Bytes
run_tool program [] input secret = (record { failed = true; stdout = []; stderr = [] }, secret)
run_tool program (command ∷ rest) input secret =
    if bytes_eq command (codes "store")
    then (record { failed = false; stdout = []; stderr = [] }, input)
    else (record { failed = false; stdout = secret; stderr = [] }, secret)

abbrev programs : Programs Bytes
programs = record { look_path = λ name. some (codes "/usr/bin/secret-tool"); run = run_tool }

programs-IsDocumented : IsDocumented programs []
unfolding run_tool bytes_eq IsDocumented
programs-IsDocumented program found label attributes secret before worked = (refl, refl)

secret_tool-IsFaithful_example : IsFaithful (some (secret_tool_keyring programs []))
secret_tool-IsFaithful_example = secret_tool-IsFaithful programs [] programs-IsDocumented
