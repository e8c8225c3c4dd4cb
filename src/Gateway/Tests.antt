-- ===== src/Gateway/Tests.antt =====
-- Runs of the gateway's client, and its theorems at a concrete network.
use edukod_companion.Base.{
  ◌≤◌, ◌≡◌, ◌↔◌, refl, true, false, Option, some, [], ◌∷◌, ◌++◌, Bytes, codes, length, All,
  replicate, ok, trim_space, bytes_eq, if◌then◌else◌, contains_any,
}
use edukod_companion.Base.Url.{Url, has_extras}
use edukod_companion.Base.Triples.{Post}
use edukod_companion.Protocol.Id.{matches_id}
use edukod_companion.Gateway.Identity.{contains_control, valid_device_id, valid_device_id_iff}
use edukod_companion.Gateway.Client.{
  Network, Enrollment, whole, enroll, revoke, accept, send, validate_school_origin,
  validate_web_socket_url, https, wss, web_socket_path,
}
use edukod_companion.Gateway.Client.Guarantees.{IsUsable, IsSafe, enroll-Post, revoke-Post}

abbrev school : Bytes
school = codes "https://school.example"

abbrev origin : Url
origin = record {
  scheme = codes "https";
  host = codes "school.example";
  user = false;
  path = [];
  raw_path = [];
  raw_query = [];
  fragment = [];
}

abbrev socket : Url
socket = record origin { scheme = codes "wss"; path = codes "/api/ai/companion/v1/ws" }

abbrev enrollment : Enrollment
enrollment = record {
  device_id = codes "device-001";
  device_token = replicate 32 b'1';
  web_socket_url = [];
}

parse_school : Bytes → Option Url
parse_school text = if bytes_eq text school then some origin else some socket

abbrev network : Network
network = record {
  urls = record {
    parse = parse_school;
    text = λ u. codes "wss://school.example/api/ai/companion/v1/ws";
    hostname = λ u. u.host;
    port = λ u. [];
  };
  encode = λ r. some (codes "{}");
  decode = λ s. whole enrollment;
  exchange = λ r. ok (record { status = 201; body = codes "{}" });
}

enrolls :
    (enroll network school (codes "one-time-code") (codes "AI workstation") []).0
    ≡ ok
        (record enrollment { web_socket_url = codes "wss://school.example/api/ai/companion/v1/ws" })
unfolding enroll validate_school_origin validate_web_socket_url accept send contains_control
    contains_any valid_device_id trim_space bytes_eq parse_school https wss web_socket_path
    has_extras
enrolls = refl

control_found : contains_control (codes "workstation" ++ (0x1b ∷ codes "[2J")) ≡ true
unfolding contains_control
control_found = refl

slash_refused : valid_device_id (codes "device/one") ≡ false
unfolding valid_device_id
slash_refused = refl

valid_device_id_iff_example :
    (valid_device_id (codes "device-01:primary") ≡ true)
    ↔ ((matches_id (codes "device-01:primary") ≡ true) × (8 ≤ length (codes "device-01:primary")))
valid_device_id_iff_example = valid_device_id_iff (codes "device-01:primary")

enroll-Post_example :
    Post
      (λ e sent. IsUsable network school e × All (IsSafe network school) sent)
      (All (IsSafe network school))
      (enroll network school (codes "one-time-code") (codes "AI workstation") [])
enroll-Post_example = enroll-Post network school (codes "one-time-code") (codes "AI workstation")

revoke-Post_example : All (IsSafe network school) (revoke network school (replicate 32 b'1') []).1
revoke-Post_example = revoke-Post network school (replicate 32 b'1')
