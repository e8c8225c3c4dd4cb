-- ===== src/App/Example.antt =====
-- An environment of the commands: one school, one local API, and a keyring that is locked.
use edukod_companion.Base.{
  ◌++◌, List, ◌≡◌, refl, true, false, Option, none, some, [], ◌∷◌, Bytes, codes, ok, err, bytes_eq,
  if◌then◌else◌, replicate, Unicode,
}
use edukod_companion.Base.Url.{Url}
use edukod_companion.Protocol.Validate.{Json}
use edukod_companion.Config.FileSystem.{regular, directory, config_file, replace}
use edukod_companion.Config.Path.{Paths}
use edukod_companion.Config.Store.{Pairing, Keyring, StoreJson, whole}
use edukod_companion.Gateway.Client.{
  Network, Enrollment, enroll, revoke, accept, send, validate_school_origin,
  validate_web_socket_url, https, wss, web_socket_path,
}
use edukod_companion.Gateway.Client as Answer
use edukod_companion.LocalApi.Forward.{answered}
use edukod_companion.App.Machine.{Env, Machine, PairFlags, UnpairFlags}

abbrev pub school : Bytes
school = codes "https://school.example"

abbrev pub socket : Bytes
socket = codes "wss://school.example/api/ai/companion/v1/ws"

abbrev pub local_api : Bytes
local_api = codes "http://127.0.0.1/v1"

abbrev pub school_url : Url
school_url = record {
  scheme = codes "https";
  host = codes "school.example";
  user = false;
  path = [];
  raw_path = [];
  raw_query = [];
  fragment = [];
}

abbrev pub socket_url : Url
socket_url = record school_url { scheme = codes "wss"; path = codes "/api/ai/companion/v1/ws" }

abbrev pub local_url : Url
local_url = record school_url {
  scheme = codes "http";
  host = codes "127.0.0.1";
  path = codes "/v1";
}

-- A parser for these three.
unfoldable pub parse_known : Bytes → Option Url
parse_known text =
    if bytes_eq text school
    then some school_url
    else if bytes_eq text socket
    then some socket_url
    else if bytes_eq text local_api
    then some local_url
    else none

unfoldable pub print_known : Url → Bytes
print_known url =
    if bytes_eq url.scheme (codes "https")
    then school
    else if bytes_eq url.scheme (codes "wss")
    then socket
    else local_api

abbrev pub token : Bytes
token = replicate 32 b't'

abbrev pub network : Network
network = record {
  urls = record { parse = parse_known; text = print_known; hostname = λ u. u.host; port = λ u. [] };
  encode = λ r. some (codes "{}");
  decode = λ s.
      Answer.whole
        (record { device_id = codes "device-001"; device_token = token; web_socket_url = socket });
  exchange = λ r. ok (record { status = 200; body = codes "{}" });
}

abbrev pub paired_state : Pairing
paired_state = record {
  version = 1;
  school_origin = school;
  device_id = codes "device-001";
  device_name = codes "desk";
  web_socket_url = socket;
  local_base_url = local_api;
  paired_at = 7;
  token_in_keyring = false;
  device_token = token;
}

abbrev pub store_json : StoreJson
store_json = record {
  encode = λ p. some (codes "pairing");
  decode = λ s. whole paired_state;
  encode_status = λ s. some (codes "status");
  decode_status = λ s. none;
}

-- A keyring that is locked.
abbrev pub locked : Keyring (Unit {0})
locked = record {
  store = λ device found before. (some (codes "locked"), tt);
  load = λ device before. err (codes "locked");
  delete = λ device before. tt;
}

abbrev pub json : Json
json = record {
  valid = λ _. true;
  decode_object = λ _. none;
  decode_bool = λ _. none;
  decode_type = λ _. none;
  decode_request = λ _. none;
  decode_cancel = λ _. none;
  decode_ping = λ _. none;
}

abbrev pub unicode : Unicode
unicode = record { upper = λ s. s; lower = λ s. s }

abbrev pub pair_flags : PairFlags
pair_flags = record {
  config_directory = [];
  school = school;
  code = codes "one-time-code";
  device_name = codes "desk";
  local_base_url = local_api;
  credential_store = codes "auto";
  has_arguments = false;
}

abbrev pub unpair_flags : UnpairFlags
unpair_flags = record { config_directory = []; local_only = false }

unfoldable pub concat : List Bytes → Bytes
concat [] = []
concat (part ∷ parts) = part ++ (b'/' ∷ concat parts)

-- Nothing in the environment but a home.
abbrev pub paths : Paths
paths = record {
  xdg_config_home = [];
  user_home = ok (codes "/home/u");
  join = concat;
  clean = λ path. path;
}

abbrev pub env : Env (Unit {0})
env = record {
  parse_pair = λ name arguments. some pair_flags;
  parse_unpair = λ arguments. some unpair_flags;
  parse_common = λ arguments. some [];
  paths = paths;
  host_name = none;
  network = network;
  resolve = λ host. ok ((127 ∷ 0 ∷ 0 ∷ 1 ∷ []) ∷ []);
  store_json = store_json;
  keyring = locked;
  protocol_json = json;
  unicode = unicode;
  new_request = λ base local. none;
  transport = λ base local. answered 200 [] (codes "{}");
  pretty = λ payload. some payload;
  count_models = λ payload. 0;
  report = λ r. some (codes "{}");
  describe = λ e. codes "failed";
  quote = λ name. name;
  app_version = codes "dev";
  now = 7;
}

abbrev pub empty : Machine (Unit {0})
empty = record {
  world = record {
    store_directory = none;
    files = λ f. none;
    temporary = none;
    removal_failed = false;
    faults = [];
    secrets = tt;
  };
  requests = [];
  stdout = [];
  stderr = [];
}

abbrev pub paired : Machine (Unit {0})
paired = record empty {
  world = record empty.world {
    store_directory = some (directory 0o700);
    files = replace config_file (some (regular 0o600 (codes "pairing\n"))) (λ f. none);
  };
}

pub paired_there : paired.world.files config_file ≡ some (regular 0o600 (codes "pairing\n"))
unfolding replace
paired_there = refl
