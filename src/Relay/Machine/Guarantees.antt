-- ===== src/Relay/Machine/Guarantees.antt =====
-- What the gateway can rely on, from the invariant of the relay's goroutines.
use mathlib.Core.List.{Memᴰ}
use edukod_companion.Base.{
  ℕ, ◌+◌, ◌≤◌, ◌<◌, ◌≡◌, ◌≢◌, refl, ap, true, false, none, some, List, [], ◌∷◌, ◌++◌, arith, Bytes,
  codes, length, All, All-append, bytes_eq, bytes_eq_refl, Unicode,
}
use edukod_companion.Protocol.Message.{Request, Cancel, error_response}
use edukod_companion.Protocol.Validate.{
  Json, validate_request, validate_cancel, type_request, type_cancel,
}
use edukod_companion.Relay.Options.{Settings}
use edukod_companion.Relay.Machine.{
  Job, Worker, idle, executing, executed, removed, Reader, reading, checked, registered, declined,
  returned, State, Active, reply, cancel, response, handle, Reach, duplicate_request,
}
use edukod_companion.Relay.Machine.Invariant.{
  in_reader, in_queue, in_workers, count, Owns, ReaderOwns, WorkerOwns, in_queue-append,
}
use edukod_companion.Relay.Machine.Invariant.Steps.{Reach-Inv}

-- The jobs that are waiting or running: registered, in the channel, or in a worker up to the
-- deletion of the id.
abbrev pub reader_jobs : Reader → List Job
reader_jobs (registered job) = job ∷ []
reader_jobs reading = []
reader_jobs (checked r n) = []
reader_jobs (declined job) = []
reader_jobs returned = []

abbrev pub worker_jobs : List Worker → List Job
worker_jobs [] = []
worker_jobs (idle ∷ ws) = worker_jobs ws
worker_jobs (executing job ∷ ws) = job ∷ worker_jobs ws
worker_jobs (executed job r ∷ ws) = job ∷ worker_jobs ws
worker_jobs (removed job r ∷ ws) = worker_jobs ws

abbrev pub live_jobs : State → List Job
live_jobs s = reader_jobs s.reader ++ (s.queue ++ worker_jobs s.workers)

-- No two jobs of the list have one request id.
abbrev pub DistinctIds : List Job → Type 0
DistinctIds [] = Unit {0}
DistinctIds (job ∷ jobs) = All (λ other. job.request.id ≢ other.request.id) jobs × DistinctIds jobs

reader-own :
    (active : Active) (r : Reader) → ReaderOwns active r → All (Owns active) (reader_jobs r)
reader-own active (registered job) h = (h, tt)
reader-own active reading h = tt
reader-own active (checked r n) h = tt
reader-own active (declined job) h = tt
reader-own active returned h = tt

workers-own :
    (active : Active) (ws : List Worker)
    → All (WorkerOwns active) ws
    → All (Owns active) (worker_jobs ws)
workers-own active [] h = tt
workers-own active (idle ∷ ws) h = workers-own active ws h.1
workers-own active (executing job ∷ ws) h = (h.0, workers-own active ws h.1)
workers-own active (executed job r ∷ ws) h = (h.0, workers-own active ws h.1)
workers-own active (removed job r ∷ ws) h = workers-own active ws h.1

in_queue-reader_jobs : (t : ℕ) (r : Reader) → in_queue t (reader_jobs r) ≤ in_reader t r
in_queue-reader_jobs t (registered job) = omega arith
in_queue-reader_jobs t reading = omega arith
in_queue-reader_jobs t (checked r n) = omega arith
in_queue-reader_jobs t (declined job) = omega arith
in_queue-reader_jobs t returned = omega arith

in_queue-worker_jobs : (t : ℕ) (ws : List Worker) → in_queue t (worker_jobs ws) ≤ in_workers t ws
in_queue-worker_jobs t [] = omega arith
in_queue-worker_jobs t (idle ∷ ws) = omega (arith, in_queue-worker_jobs t ws)
in_queue-worker_jobs t (executing job ∷ ws) = omega (arith, in_queue-worker_jobs t ws)
in_queue-worker_jobs t (executed job r ∷ ws) = omega (arith, in_queue-worker_jobs t ws)
in_queue-worker_jobs t (removed job r ∷ ws) = omega (arith, in_queue-worker_jobs t ws)

-- Owners of entries whose tokens differ have ids that differ.
other_ids :
    (active : Active) (job : Job) (jobs : List Job)
    → Owns active job
    → All (Owns active) jobs
    → in_queue job.token jobs ≡ 0
    → All (λ other. job.request.id ≢ other.request.id) jobs
other_ids active job [] own owns none_left = tt
other_ids active job (k ∷ jobs) own owns none_left =
    (λ same. ground (arith, ap active same), other_ids active job jobs own owns.1 (omega arith))

owners_distinct :
    (active : Active) (jobs : List Job)
    → All (Owns active) jobs
    → ((t : ℕ) → in_queue t jobs ≤ 1)
    → DistinctIds jobs
owners_distinct active [] owns once = tt
owners_distinct active (job ∷ jobs) owns once = (
  other_ids active job jobs owns.0 owns.1 (ground (arith, once job.token)),
  owners_distinct active jobs owns.1 (λ t. omega (arith, once t)),
)

owner :
    (active : Active) (job : Job) (jobs : List Job)
    → All (Owns active) jobs
    → Memᴰ job jobs
    → active job.request.id ≡ some job.token
owner active job [] owns m = elim m [ ]
owner active job (k ∷ jobs) owns (Memᴰ.head e) = rw e owns.0
owner active job (k ∷ jobs) owns (Memᴰ.tail m) = owner active job jobs owns.1 m

cancel_not_request :
    (bytes_eq type_cancel type_request ≡ false) × (bytes_eq type_cancel type_cancel ≡ true)
unfolding bytes_eq type_cancel type_request
cancel_not_request = (refl, refl)

module _ (json : Json) (unicode : Unicode) (settings : Settings) where
  live-own : {s : State} → Reach json unicode settings s → All (Owns s.active) (live_jobs s)
  live-own {s} r =
      let inv = Reach-Inv json unicode settings r in
      All-append _ (reader_jobs s.reader) _ (reader-own s.active s.reader inv.reader_owns)
        (All-append _ s.queue _ inv.queue_owns (workers-own s.active s.workers inv.workers_own))

  -- In every reachable state, no two requests that wait or run have the same id.
  pub live_ids_distinct : {s : State} → Reach json unicode settings s → DistinctIds (live_jobs s)
  live_ids_distinct {s} r = owners_distinct s.active (live_jobs s) (live-own r) (λ t. ground (
    arith,
    (Reach-Inv json unicode settings r).accounted t,
    in_queue-append t (reader_jobs s.reader) (s.queue ++ worker_jobs s.workers),
    in_queue-append t s.queue (worker_jobs s.workers),
    in_queue-reader_jobs t s.reader,
    in_queue-worker_jobs t s.workers,
  ))

  handle_cancel :
      (payload : Bytes) (started now t : ℕ) (active : Active) (m : Cancel)
      → length payload ≤ settings.max_request_bytes + 4096
      → json.decode_type payload ≡ some type_cancel
      → json.decode_cancel payload ≡ some m
      → validate_cancel m ≡ true
      → active m.id ≡ some t
      → handle json unicode settings payload started now active ≡ cancel (some t)
  unfolding handle
  handle_cancel payload started now t active m fits type decoded valid found =
      ground (arith, cancel_not_request)

  -- A valid cancel message that names a request which waits or runs cancels the context of that
  -- request's job, in every reachable state.
  pub cancel_reaches_job :
      {s : State} (job : Job) (payload : Bytes) (started now : ℕ) (m : Cancel)
      → Reach json unicode settings s
      → Memᴰ job (live_jobs s)
      → length payload ≤ settings.max_request_bytes + 4096
      → json.decode_type payload ≡ some type_cancel
      → json.decode_cancel payload ≡ some m
      → validate_cancel m ≡ true
      → m.id ≡ job.request.id
      → handle json unicode settings payload started now s.active ≡ cancel (some job.token)
  cancel_reaches_job {s} job payload started now m r member fits type decoded valid named =
      handle_cancel payload started now job.token s.active m fits type decoded valid
        (rw named (owner s.active job (live_jobs s) (live-own r) member))

  handle_duplicate :
      (payload : Bytes) (started now t : ℕ) (active : Active) (q : Request)
      → length payload ≤ settings.max_request_bytes + 4096
      → json.decode_type payload ≡ some type_request
      → json.decode_request payload ≡ some q
      → validate_request json unicode q started settings.max_request_bytes ≡ none
      → active q.id ≡ some t
      → handle json unicode settings payload started now active
        ≡ reply (
            response (
              error_response q.id duplicate_request
                (codes "request id is already active")
                started
                now))
  unfolding handle
  handle_duplicate payload started now t active q fits type decoded valid found =
      ground (arith, bytes_eq_refl type_request)

  -- A valid request under the id of one that waits or runs is not admitted: it is answered at
  -- once with the error `duplicate_request`, in every reachable state.
  pub duplicate_refused :
      {s : State} (job : Job) (payload : Bytes) (started now : ℕ) (q : Request)
      → Reach json unicode settings s
      → Memᴰ job (live_jobs s)
      → length payload ≤ settings.max_request_bytes + 4096
      → json.decode_type payload ≡ some type_request
      → json.decode_request payload ≡ some q
      → validate_request json unicode q started settings.max_request_bytes ≡ none
      → q.id ≡ job.request.id
      → handle json unicode settings payload started now s.active
        ≡ reply (
            response (
              error_response q.id duplicate_request
                (codes "request id is already active")
                started
                now))
  duplicate_refused {s} job payload started now q r member fits type decoded valid named =
      handle_duplicate payload started now job.token s.active q fits type decoded valid
        (rw named (owner s.active job (live_jobs s) (live-own r) member))

  -- A job is answered at most once. In a reachable state in which no job is left, each job that
  -- was ever made was answered exactly once, or given up once when the relay stopped.
  pub settled_once :
      {s : State} (t : ℕ)
      → Reach json unicode settings s
      → (count t s.settled ≤ 1)
        × (in_reader t s.reader ≡ 0
            → s.queue ≡ []
            → in_workers t s.workers ≡ 0
            → t < s.next_token
            → count t s.settled ≡ 1)
  settled_once {s} t r = (
    ground (arith, (Reach-Inv json unicode settings r).accounted t),
    λ no_reader empty no_worker made.
        ground (arith, (Reach-Inv json unicode settings r).accounted t, ap (in_queue t) empty),
  )
