-- ===== src/Relay/Options.antt =====
-- relay.go: `Options` and its defaults. Sizes and counts are Go ints, durations nanoseconds.
use edukod_companion.Base.{
  ℕ, ◌*◌, ◌^◌, ◌<◌, ◌≡◌, ◌||◌, Option, none, some, [], arith, Bytes, bytes_eq, if◌then◌else◌, ltb,
}
use edukod_companion.Protocol.Message.{ℤ, pos, negsuc, Hello, new_hello}

abbrev pub default_max_request_bytes : ℕ
default_max_request_bytes = 8 * 2 ^ 20

abbrev pub default_max_response_bytes : ℕ
default_max_response_bytes = 16 * 2 ^ 20

abbrev pub default_concurrency : ℕ
default_concurrency = 4

abbrev pub default_queue_size : ℕ
default_queue_size = 16

abbrev pub ns_per_second : ℕ
ns_per_second = 1000000000

pub record Options : Type 0 where
  pub device_id : Bytes
  pub device_name : Bytes
  pub max_request_bytes : ℤ
  pub max_response_bytes : ℤ
  pub concurrency : ℤ
  pub queue_size : ℤ
  pub heartbeat : ℤ
  pub default_timeout : ℤ

-- `if x <= 0 { x = d }`.
unfoldable pub default_to : ℕ → ℤ → ℕ
default_to d (pos n) = if ltb 0 n then n else d
default_to d (negsuc n) = d

-- The options after `defaults`: all numbers are positive.
pub record Settings : Type 0 where
  pub device_id : Bytes
  pub device_name : Bytes
  pub max_request_bytes : ℕ
  pub max_response_bytes : ℕ
  pub concurrency : ℕ
  pub queue_size : ℕ
  pub heartbeat : ℕ
  pub default_timeout : ℕ

unfoldable pub defaults : Options → Settings
unfolding default_to
defaults options = record {
  device_id = options.device_id;
  device_name = options.device_name;
  max_request_bytes = default_to default_max_request_bytes options.max_request_bytes;
  max_response_bytes = default_to default_max_response_bytes options.max_response_bytes;
  concurrency = default_to default_concurrency options.concurrency;
  queue_size = default_to default_queue_size options.queue_size;
  heartbeat = default_to (20 * ns_per_second) options.heartbeat;
  default_timeout = default_to (120 * ns_per_second) options.default_timeout;
}

-- The identity test of `Serve`, and the hello that it sends first; `none` is its error.
unfoldable pub opening : Settings → Option Hello
opening s =
    if bytes_eq s.device_id [] || bytes_eq s.device_name []
    then none
    else some
        (new_hello s.device_id s.device_name s.max_request_bytes s.max_response_bytes s.concurrency)

-- Whatever the options are, the settings have room for a worker, a queued job and a byte each way,
-- and a positive option is kept.
pub defaults_positive :
    (o : Options)
    → (0 < (defaults o).concurrency)
      × (0 < (defaults o).queue_size)
      × (0 < (defaults o).max_request_bytes)
      × (0 < (defaults o).max_response_bytes)
      × (0 < (defaults o).heartbeat)
      × (0 < (defaults o).default_timeout)
      × ((n : ℕ) → 0 < n → o.concurrency ≡ pos n → (defaults o).concurrency ≡ n)
      × ((n : ℕ) → 0 < n → o.queue_size ≡ pos n → (defaults o).queue_size ≡ n)
unfolding defaults
defaults_positive o = ground arith
