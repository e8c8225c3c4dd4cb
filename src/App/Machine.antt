-- ===== src/App/Machine.antt =====
-- app.go: what the commands work on. `Machine` is the state that they change, `Env` what they ask
-- of the flags' parser, the network, the file system's encodings and the local API.
pub mod Rules
use edukod_companion.Base.{
  ℕ, Bool, true, false, Option, none, some, List, [], ◌∷◌, ◌++◌, Bytes, codes, bytes_eq, trim_space,
  if◌then◌else◌, Result, ok, err, Fallible, Unicode,
}
use edukod_companion.Base.Url.{Url}
use edukod_companion.Config.FileSystem.{World, StoreError, Io}
use edukod_companion.Config.Path.{Paths, store_path}
use edukod_companion.Config.Store.{Pairing, RuntimeStatus, Keyring, StoreJson, Store}
use edukod_companion.Gateway.Client.{Network, HttpRequest, GatewayError, Call}
use edukod_companion.LocalApi.Address.{AddressError}
use edukod_companion.LocalApi.Forward.{LocalRequest, Outcome}
use edukod_companion.Protocol.Validate.{Json}
use edukod_companion.Relay.Execute.{GoError}

pub data AppError : Type 0 where
  bad_flags positional already_paired bad_credential_store not_json : AppError
  no_directory : Bytes → AppError
  bad_address bad_local_url : AddressError → AppError
  in_store not_saved bad_pairing : StoreError → AppError
  at_gateway not_revoked stored_origin stored_socket : GatewayError → AppError
  at_local_api bad_models : GoError → AppError

pub record PairFlags : Type 0 where
  pub config_directory : Bytes
  pub school : Bytes
  pub code : Bytes
  pub device_name : Bytes
  pub local_base_url : Bytes
  pub credential_store : Bytes
  pub has_arguments : Bool

pub record UnpairFlags : Type 0 where
  pub config_directory : Bytes
  pub local_only : Bool

-- What `status` prints, as JSON.
pub record StatusReport : Type 0 where
  pub pairing : Pairing
  pub credential_store : Bytes
  pub runtime : Option RuntimeStatus  -- `none` is the empty status

-- `parse_pair` takes the default of the device's name.
pub record Env (K : Type 0) : Type 0 where
  pub parse_pair : Bytes → List Bytes → Option PairFlags
  pub parse_unpair : List Bytes → Option UnpairFlags
  pub parse_common : List Bytes → Option Bytes
  pub paths : Paths
  pub host_name : Option Bytes
  pub network : Network
  pub resolve : Bytes → Result Bytes (List Bytes)
  pub store_json : StoreJson
  pub keyring : Keyring K
  pub protocol_json : Json
  pub unicode : Unicode
  pub new_request : Url → LocalRequest → Option Bytes
  pub transport : Url → LocalRequest → Outcome
  pub pretty : Bytes → Option Bytes
  pub count_models : Bytes → ℕ
  pub report : StatusReport → Option Bytes
  pub describe : AppError → Bytes
  pub quote : Bytes → Bytes
  pub app_version : Bytes
  pub now : ℕ

-- The store's world, the requests that went to the gateway, and what was printed.
pub record Machine (K : Type 0) : Type 0 where
  pub world : World K
  pub requests : List HttpRequest
  pub stdout : List Bytes
  pub stderr : List Bytes

abbrev pub Command : Type 0 → Type 0 → Type 0
Command K = Fallible (Machine K) AppError

-- An operation of the store, or of the gateway's client, as a part of a command.
after_store : {K A : Type 0} → (StoreError → AppError) → Result StoreError A × World K → Command K A
after_store wrap (ok a, w) m = (ok a, record m { world = w })
after_store wrap (err e, w) m = (err (wrap e), record m { world = w })

unfoldable pub on_store : {K A : Type 0} → (StoreError → AppError) → Io K A → Command K A
unfolding after_store
on_store wrap action m = after_store wrap (action m.world) m

after_call :
    {K A : Type 0}
    → (GatewayError → AppError)
    → Result GatewayError A × List HttpRequest
    → Command K A
after_call wrap (ok a, sent) m = (ok a, record m { requests = sent })
after_call wrap (err e, sent) m = (err (wrap e), record m { requests = sent })

unfoldable pub on_gateway : {K A : Type 0} → (GatewayError → AppError) → Call A → Command K A
unfolding after_call
on_gateway wrap action m = after_call wrap (action m.requests) m

unfoldable pub from_result : {K E A : Type 0} → (E → AppError) → Result E A → Command K A
from_result wrap (ok a) m = (ok a, m)
from_result wrap (err e) m = (err (wrap e), m)

unfoldable pub from_option : {K A : Type 0} → AppError → Option A → Command K A
from_option e none m = (err e, m)
from_option e (some a) m = (ok a, m)

abbrev pub print : {K : Type 0} → Bytes → Command K (Unit {0})
print line m = (ok tt, record m { stdout = m.stdout ++ line ∷ [] })

-- The error of `NewStore`. The world has one directory, so that its path is not kept.
unfoldable pub open_store : {K : Type 0} → Env K → Bytes → Option Bytes
open_store env directory = elim (store_path env.paths directory) [
  | ok path ↦ none
  | err text ↦ some text
]

unfoldable pub new_store : {K : Type 0} → Option Bytes → Command K (Unit {0})
new_store none m = (ok tt, m)
new_store (some text) m = (err (no_directory text), m)

-- The store of `NewStore`.
abbrev pub default_store : {K : Type 0} → Env K → Store K
default_store env = record { keyring = some env.keyring; require_keyring = false }

-- `hostname`.
unfoldable pub default_name : Option Bytes → Bytes
default_name none = codes "EduKod AI workstation"
default_name (some name) =
    if bytes_eq (trim_space name) [] then codes "EduKod AI workstation" else name
