-- ===== src/Relay/Machine.antt =====
-- relay.go: `Serve` from its first hello on, as the steps of its goroutines in any order.
pub mod Runs
pub mod Invariant
pub mod Guarantees
pub mod Drain
pub mod Named
pub mod Ledger
pub mod Ending
use edukod_companion.Base.{
  ℕ, zero, suc, ◌+◌, ◌*◌, ◌≤◌, ◌<◌, ◌≡◌, refl, Bool, true, false, ◌||◌, Option, none, some, List,
  [], ◌∷◌, ◌++◌, arith, Bytes, codes, length, replicate, bytes_eq, if◌then◌else◌, ltb, Unicode,
  Result,
}
use edukod_companion.Protocol.Message.{
  ℤ, pos, negsuc, Request, Response, Ping, Cancel, error_response, ns_per_ms,
}
use edukod_companion.Protocol.Validate.{
  Json, RequestError, error_text, validate_request, validate_cancel, type_request, type_cancel,
  is_zero,
}
use edukod_companion.Relay.Options.{Settings}
use edukod_companion.Relay.Execute.{GoError, Reply, execute}

-- `job`: the context is a token, by which the `cancel` function and the worker know it.
pub record Job : Type 0 where
  pub request : Request
  pub token : ℕ
  pub deadline : ℕ
  pub started : ℕ

-- The deadline of a request's context in nanoseconds. A negative one does not pass validation.
unfoldable pub job_deadline : ℕ → ℤ → ℕ → ℕ
job_deadline default_timeout (pos zero) started = started + default_timeout
job_deadline default_timeout (pos (suc ms)) started = suc ms * ns_per_ms
job_deadline default_timeout (negsuc ms) started = 0

-- What is given to `connection.WriteJSON`.
pub data Sent : Type 0 where
  response : Response → Sent
  pong : Ping → Sent

pub data ReadError : Type 0 where
  message_too_large invalid_json invalid_request invalid_cancel invalid_ping : ReadError
  unsupported_type : Bytes → ReadError
  connection_failed : ReadError

unfoldable pub type_ping : Bytes
type_ping = codes "ping"

-- What the reading goroutine does about one message.
pub data Action : Type 0 where
  fail : ReadError → Action
  reply : Sent → Action
  admit : Request → ℕ → Action
  cancel : Option ℕ → Action

abbrev pub Active : Type 0
Active = Bytes → Option ℕ

unfoldable pub bad_request : Bytes
bad_request = codes "bad_request"

unfoldable pub duplicate_request : Bytes
duplicate_request = codes "duplicate_request"

unfoldable pub busy : Bytes
busy = codes "busy"

module _ (json : Json) (unicode : Unicode) (settings : Settings) where
  -- The duplicate test, with the map as it is when the lock is held.
  check_duplicate : Request → ℕ → ℕ → Option ℕ → Action
  check_duplicate request started now none = admit request started
  check_duplicate request started now (some token) = reply (
      response (
        error_response request.id duplicate_request (codes "request id is already active") started
          now))

  check_request : Request → ℕ → ℕ → Active → Option RequestError → Action
  unfolding check_duplicate
  check_request request started now active (some e) =
      reply (response (error_response request.id bad_request (error_text e) started now))
  check_request request started now active none =
      check_duplicate request started now (active request.id)

  on_request : Option Request → ℕ → ℕ → Active → Action
  unfolding check_request
  on_request none started now active = fail invalid_request
  on_request (some request) started now active =
      check_request request started now active
        (validate_request json unicode request started settings.max_request_bytes)

  on_cancel : Option Cancel → Active → Action
  on_cancel none active = fail invalid_cancel
  on_cancel (some message) active =
      if validate_cancel message then cancel (active message.id) else fail invalid_cancel

  on_ping : Option Ping → Action
  on_ping none = fail invalid_ping
  on_ping (some ping) = reply (pong (record { type = codes "pong"; id = ping.id }))

  on_type : Option Bytes → Bytes → ℕ → ℕ → Active → Action
  unfolding on_request on_cancel on_ping
  on_type none payload started now active = fail invalid_json
  on_type (some type) payload started now active =
      if bytes_eq type type_request
      then on_request (json.decode_request payload) started now active
      else if bytes_eq type type_cancel
      then on_cancel (json.decode_cancel payload) active
      else if bytes_eq type type_ping
      then on_ping (json.decode_ping payload)
      else fail (unsupported_type type)

  -- The reading goroutine on a payload, from the size test on. `started` is the
  -- `time.Now()` after the decoding, and `now` the time at which a response is made.
  unfoldable pub handle : Bytes → ℕ → ℕ → Active → Action
  unfolding on_type
  handle payload started now active =
      if ltb (settings.max_request_bytes + 4096) (length payload)
      then fail message_too_large
      else on_type (json.decode_type payload) payload started now active

-- Where the reading goroutine stands: before a read, past the duplicate test, past the entry into
-- the map, past the `delete` for want of room, or returned.
pub data Reader : Type 0 where
  reading : Reader
  checked : Request → ℕ → Reader
  registered : Job → Reader
  declined : Job → Reader
  returned : Reader

-- Where a worker stands: at the channel, in the forwarder, before the `delete`, before the write.
pub data Worker : Type 0 where
  idle : Worker
  executing : Job → Worker
  executed : Job → Response → Worker
  removed : Job → Response → Worker

-- `active` is the map `cancellations`, `queue` the channel `jobs`, and `canceled` holds the
-- tokens of the contexts that were canceled one by one; a stop cancels all of them. `settled` is a
-- history: the tokens whose job was answered, or given up when the relay stopped.
pub record State : Type 0 where
  pub reader : Reader
  pub active : Active
  pub queue : List Job
  pub workers : List Worker
  pub outbox : List Sent
  pub canceled : List ℕ
  pub next_token : ℕ
  pub stopped : Bool
  pub read_error : Option ReadError
  pub write_failed : Bool
  pub settled : List ℕ

abbrev pub start : ℕ → State
start concurrency = record {
  reader = reading;
  active = λ id. none;
  queue = [];
  workers = replicate concurrency idle;
  outbox = [];
  canceled = [];
  next_token = 0;
  stopped = false;
  read_error = none;
  write_failed = false;
  settled = [];
}

-- `write`: a failure is noted for the main goroutine, and stops the relay.
unfoldable pub write : Bool → Sent → State → State
write true sent s = record s { outbox = s.outbox ++ sent ∷ [] }
write false sent s = record s { write_failed = true; stopped = true }

abbrev pub remove : Bytes → Active → Active
remove id active k = if bytes_eq id k then none else active k

abbrev pub enter : Bytes → ℕ → Active → Active
enter id token active k = if bytes_eq id k then some token else active k

-- The message loop acts. `ok` says whether a write succeeds.
unfoldable pub act : Bool → Action → State → State
unfolding write
act ok (fail e) s = record s { reader = returned; read_error = some e }
act ok (reply sent) s = write ok sent s
act ok (admit request started) s = record s { reader = checked request started }
act ok (cancel none) s = s
act ok (cancel (some token)) s = record s { canceled = token ∷ s.canceled }

-- A second error of one kind has no room in its channel and changes nothing.
module _ (json : Json) (unicode : Unicode) (settings : Settings) where
  -- One step of one goroutine.
  pub data Step (s : State) : State → Type 0 where
    -- The reader takes a message and acts on it.
    receive :
        (payload : Bytes) (started now : ℕ) (ok : Bool)
        → s.reader ≡ reading
        → Step s (act ok (handle json unicode settings payload started now s.active) s)
    -- The read fails.
    lose :
        s.reader ≡ reading
        → Step s (record s { reader = returned; read_error = some connection_failed })
    -- The reader sees that the relay has stopped.
    quit : s.reader ≡ reading → s.stopped ≡ true → Step s (record s { reader = returned })
    -- The reader enters the request into the map.
    register :
        (request : Request) (started : ℕ)
        → s.reader ≡ checked request started
        → Step s (record s {
          reader = registered (record {
            request = request;
            token = s.next_token;
            deadline = job_deadline settings.default_timeout request.deadline_unix_ms started;
            started = started;
          });
          active = enter request.id s.next_token s.active;
          next_token = suc s.next_token;
        })
    -- The three cases of the `select` with the channel.
    enqueue :
        (job : Job)
        → s.reader ≡ registered job
        → length s.queue < settings.queue_size
        → Step s (record s { reader = reading; queue = s.queue ++ job ∷ [] })
    abandon :
        (job : Job)
        → s.reader ≡ registered job
        → s.stopped ≡ true
        → Step s (record s {
          reader = returned;
          canceled = job.token ∷ s.canceled;
          settled = job.token ∷ s.settled;
        })
    refuse :
        (job : Job)
        → s.reader ≡ registered job
        → settings.queue_size ≤ length s.queue
        → s.stopped ≡ false
        → Step s (record s { reader = declined job; active = remove job.request.id s.active })
    -- After the deletion of the id, the reader cancels the context and answers that it is busy.
    decline :
        (job : Job) (now : ℕ) (ok : Bool)
        → s.reader ≡ declined job
        → Step s (
            write ok
              (response (
                error_response job.request.id busy
                  (codes "local companion queue is full")
                  job.started
                  now))
              (record s {
                reader = reading;
                canceled = job.token ∷ s.canceled;
                settled = job.token ∷ s.settled;
              }))
    -- A worker takes a job, executes it, deletes its id, and answers.
    take :
        (xs ys : List Worker) (job : Job) (rest : List Job)
        → s.workers ≡ xs ++ idle ∷ ys
        → s.queue ≡ job ∷ rest
        → Step s (record s { workers = xs ++ executing job ∷ ys; queue = rest })
    finish :
        (xs ys : List Worker) (job : Job) (result : Result GoError Reply) (now : ℕ)
        → s.workers ≡ xs ++ executing job ∷ ys
        → Step s (record s {
          workers = xs ++ executed job (execute unicode job.request job.started result now) ∷ ys;
        })
    delete :
        (xs ys : List Worker) (job : Job) (made : Response)
        → s.workers ≡ xs ++ executed job made ∷ ys
        → Step s (record s {
          workers = xs ++ removed job made ∷ ys;
          active = remove job.request.id s.active;
        })
    answer :
        (xs ys : List Worker) (job : Job) (made : Response) (ok : Bool)
        → s.workers ≡ xs ++ removed job made ∷ ys
        → Step s (
            write ok (response made) (record s {
              workers = xs ++ idle ∷ ys;
              canceled = job.token ∷ s.canceled;
              settled = job.token ∷ s.settled;
            }))
    -- A ping fails, the program is told to end, or an error has reached the main goroutine.
    stop :
        (failed : Bool)
        → Step s (record s { stopped = true; write_failed = s.write_failed || failed })

  pub data Reach : State → Type 0 where
    begin : Reach (start settings.concurrency)
    next : {s t : State} → Reach s → Step s t → Reach t
