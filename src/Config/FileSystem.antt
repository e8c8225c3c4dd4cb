-- ===== src/Config/FileSystem.antt =====
-- What store.go asks of the operating system: its directory, its two files, the temporary file of
-- a write, and a keyring. Each call may fail, as the world's list of faults says.
use Prim.Native.Nat.{bit_and}
use edukod_companion.Base.{
  ℕ, ◌==◌, Bool, true, Option, none, some, List, [], ◌∷◌, Bytes, Result, ok, err, Fallible, ◌>>◌,
}

-- What stands at a path, with its permission bits. A link has what a read through it gives.
pub data Node : Type 0 where
  regular : ℕ → Bytes → Node
  directory : ℕ → Node
  symlink : Option Bytes → Node
  special : Node  -- a device, a socket, a pipe

pub data File : Type 0 where
  config_file status_file : File

pub data OsError : Type 0 where
  not_exist is_directory unreadable : OsError
  fault : Bytes → OsError

pub data StoreError : Type 0 where
  os : OsError → StoreError
  not_real_directory symlink_write symlink_delete : StoreError
  identity_required keyring_required not_encodable : StoreError
  not_regular bad_permissions invalid_json trailing_data incomplete : StoreError
  keyring_unavailable credential_missing : StoreError
  keyring_failed : Bytes → StoreError

-- `faults` says of each of the next calls whether and how it fails; after them no call fails.
-- `secrets` is the keyring's own state. `removal_failed` is a history: whether a removal of a
-- temporary file has failed.
pub record World (K : Type 0) : Type 0 where
  pub store_directory : Option Node
  pub files : File → Option Node
  pub temporary : Option Node
  pub faults : List (Option Bytes)
  pub secrets : K
  pub removal_failed : Bool

-- The files with another found at one path.
unfoldable pub replace : File → Option Node → (File → Option Node) → File → Option Node
replace config_file found files config_file = found
replace config_file found files status_file = files status_file
replace status_file found files config_file = files config_file
replace status_file found files status_file = found

abbrev pub other_file : File → File
other_file config_file = status_file
other_file status_file = config_file

abbrev pub is_private : ℕ → Bool
is_private permissions = bit_and permissions 0o77 == 0

abbrev pub Io : Type 0 → Type 0 → Type 0
Io K = Fallible (World K) StoreError

abbrev pub with_permissions : ℕ → Option Node → Option Node
with_permissions permissions (some (regular _ content)) = some (regular permissions content)
with_permissions permissions (some (directory _)) = some (directory permissions)
with_permissions permissions found = found

abbrev pub with_content : Bytes → Option Node → Option Node
with_content content (some (regular permissions _)) = some (regular permissions content)
with_content content found = found

unfoldable pub content_of : Option Node → Result StoreError Bytes
content_of none = err (os not_exist)
content_of (some (regular _ content)) = ok content
content_of (some (symlink (some content))) = ok content
content_of (some (symlink none)) = err (os not_exist)
content_of (some (directory _)) = err (os is_directory)
content_of (some special) = err (os unreadable)

module _ {K : Type 0} where
  abbrev pub fail : {A : Type 0} → StoreError → Io K A
  fail e w = (err e, w)

  abbrev pub put_file : File → Option Node → World K → World K
  put_file file found w = record w { files = replace file found w.files }

  unfoldable pub call_with : List (Option Bytes) → Io K (Unit {0})
  call_with [] w = (ok tt, w)
  call_with (none ∷ later) w = (ok tt, record w { faults = later })
  call_with (some text ∷ later) w = (err (os (fault text)), record w { faults = later })

  -- Every call of the operating system begins with this.
  unfoldable pub call : Io K (Unit {0})
  unfolding call_with
  call w = call_with w.faults w

  -- `os.Lstat`; `none` is the error `os.ErrNotExist`.
  abbrev pub lstat_directory : Io K (Option Node)
  lstat_directory = do call; λ w. (ok w.store_directory, w)

  abbrev pub lstat : File → Io K (Option Node)
  lstat file = do call; λ w. (ok (w.files file), w)

  -- `os.MkdirAll(path, 0700)`, where nothing is.
  abbrev pub mkdir_all : Io K (Unit {0})
  mkdir_all = do call; λ w. (ok tt, record w { store_directory = some (directory 0o700) })

  abbrev pub chmod_directory : ℕ → Io K (Unit {0})
  chmod_directory permissions = do
    call
    λ w. (ok tt, record w { store_directory = some (directory permissions) })

  -- `os.CreateTemp`, which makes the file with permissions 0600.
  abbrev pub create_temp : Io K (Unit {0})
  create_temp = do call; λ w. (ok tt, record w { temporary = some (regular 0o600 []) })

  abbrev pub chmod_temp : ℕ → Io K (Unit {0})
  chmod_temp permissions = do
    call
    λ w. (ok tt, record w { temporary = with_permissions permissions w.temporary })

  abbrev pub write_temp : Bytes → Io K (Unit {0})
  write_temp content = do
    call
    λ w. (ok tt, record w { temporary = with_content content w.temporary })

  -- `os.Rename` of the temporary file: a file at the target is replaced, a directory refuses.
  unfoldable pub rename_onto : File → Option Node → Io K (Unit {0})
  rename_onto file (some (directory _)) = fail (os is_directory)
  rename_onto file _ = λ w. (ok tt, record (put_file file w.temporary w) { temporary = none })

  unfoldable pub rename : File → Io K (Unit {0})
  unfolding rename_onto
  rename file = do call; λ w. rename_onto file (w.files file) w

  abbrev pub chmod : File → ℕ → Io K (Unit {0})
  chmod file permissions = do
    call
    λ w. (ok tt, put_file file (with_permissions permissions (w.files file)) w)

  -- `defer os.Remove(temporaryPath)`, whose error is dropped.
  abbrev pub then_remove_temp : Io K (Unit {0}) → Io K (Unit {0})
  then_remove_temp action w =
      let (result, w1) = action w in
      let (removed, w2) = call w1 in
      (
        result,
        elim removed [
          | ok _ ↦ record w2 { temporary = none }
          | err _ ↦ record w2 { removal_failed = true }
        ],
      )

  -- `os.ReadFile`.
  unfoldable pub read_file : File → Io K Bytes
  unfolding content_of
  read_file file = do call; λ w. (content_of (w.files file), w)

  abbrev pub remove : File → Io K (Unit {0})
  remove file = do call; λ w. (ok tt, put_file file none w)
