-- ===== src/Relay/Machine/Named.antt =====
-- relay.go, `Serve`: what the reader sends itself, and under which id a job is answered.
use edukod_companion.Base.{
  ℕ, ◌≡◌, refl, ◌⊎◌, Bool, true, false, none, some, List, [], ◌∷◌, ◌++◌, arith, Bytes, codes, All,
  All-append, replicate, Unicode, suc, zero,
}
use edukod_companion.Protocol.Id.{matches_id}
use edukod_companion.Protocol.Message.{Request, Response, error_response}
use edukod_companion.Protocol.Validate.{Json, validate_request}
use edukod_companion.Relay.Options.{Settings}
use edukod_companion.Relay.Execute.{execute-id}
use edukod_companion.Relay.Machine.{
  Job, Worker, idle, executing, executed, removed, Reader, reading, checked, registered, declined,
  returned, State, Active, write, act, Action, fail, reply, admit, cancel, Sent, response, pong,
  handle, bad_request, duplicate_request, Step, receive, lose, quit, register, enqueue, abandon,
  refuse, decline, take, finish, delete, answer, stop, Reach, begin, next,
}
use edukod_companion.Relay.Machine.Invariant.{All-middle}
use edukod_companion.Relay.Machine.Invariant.Steps.{handle_admits}

-- What the reader sends itself: a pong, or the refusal of a request that it does not admit.
abbrev pub IsNotice : Sent → Type 0
IsNotice (response made) = (made.error_code ≡ bad_request) ⊎ (made.error_code ≡ duplicate_request)
IsNotice (pong ping) = ping.type ≡ codes "pong"

-- A request that is admitted has a well-formed id, and the reader's own replies are notices.
abbrev pub IsProper : Action → Type 0
IsProper (fail e) = Unit {0}
IsProper (reply sent) = IsNotice sent
IsProper (admit request started) = matches_id request.id ≡ true
IsProper (cancel token) = Unit {0}

validate_request-id :
    (json : Json) (unicode : Unicode) (r : Request) (now max_body : ℕ)
    → validate_request json unicode r now max_body ≡ none
    → matches_id r.id ≡ true
unfolding validate_request
validate_request-id json unicode r now max_body h = ground arith

module _ (json : Json) (unicode : Unicode) (settings : Settings) (payload : Bytes) (started now : ℕ)
    (active : Active) where
  refusal-IsNotice :
      (made : Response)
      → handle json unicode settings payload started now active ≡ reply (response made)
      → IsNotice (response made)
  unfolding handle error_response
  refusal-IsNotice made h = ground arith

  pong-IsNotice :
      (ping : _)
      → handle json unicode settings payload started now active ≡ reply (pong ping)
      → IsNotice (pong ping)
  unfolding handle
  pong-IsNotice ping h = ground arith

  pub handle-IsProper :
      (a : Action) → handle json unicode settings payload started now active ≡ a → IsProper a
  handle-IsProper (fail e) h = tt
  handle-IsProper (reply (response made)) h = refusal-IsNotice made h
  handle-IsProper (reply (pong ping)) h = pong-IsNotice ping h
  handle-IsProper (admit request n) h =
      validate_request-id json unicode request started settings.max_request_bytes
        (handle_admits json unicode settings payload started now active request n h).2
  handle-IsProper (cancel token) h = tt

-- The ids at each place: of a job that is to be executed, well formed; of a response, the job's.
abbrev pub ReaderNamed : Reader → Type 0
ReaderNamed reading = Unit {0}
ReaderNamed (checked request started) = matches_id request.id ≡ true
ReaderNamed (registered job) = matches_id job.request.id ≡ true
ReaderNamed (declined job) = matches_id job.request.id ≡ true
ReaderNamed returned = Unit {0}

abbrev pub WorkerNamed : Worker → Type 0
WorkerNamed idle = Unit {0}
WorkerNamed (executing job) = matches_id job.request.id ≡ true
WorkerNamed (executed job made) = made.id ≡ job.request.id
WorkerNamed (removed job made) = made.id ≡ job.request.id

abbrev pub JobNamed : Job → Type 0
JobNamed job = matches_id job.request.id ≡ true

pub record Named (s : State) : Type 0 where
  pub reader_named : ReaderNamed s.reader
  pub queue_named : All JobNamed s.queue
  pub workers_named : All WorkerNamed s.workers

idle-Named : (n : ℕ) → All WorkerNamed (replicate n idle)
idle-Named zero = tt
idle-Named (suc n) = (tt, idle-Named n)

write-Named : (ok : Bool) (sent : Sent) (s : State) → Named s → Named (write ok sent s)
unfolding write
write-Named true sent s h = record {
  reader_named = h.reader_named;
  queue_named = h.queue_named;
  workers_named = h.workers_named;
}
write-Named false sent s h = record {
  reader_named = h.reader_named;
  queue_named = h.queue_named;
  workers_named = h.workers_named;
}

module _ (s : State) (h : Named s) where
  -- One place changes.
  move_reader :
      (t : State) → t.queue ≡ s.queue → t.workers ≡ s.workers → ReaderNamed t.reader → Named t
  move_reader t q w r = record {
    reader_named = r;
    queue_named = rw q h.queue_named;
    workers_named = rw w h.workers_named;
  }

  move_worker :
      (t : State) (xs ys : List Worker) (w v : Worker)
      → s.workers ≡ xs ++ w ∷ ys
      → t.workers ≡ xs ++ v ∷ ys
      → (WorkerNamed w → WorkerNamed v)
      → t.reader ≡ s.reader
      → t.queue ≡ s.queue
      → Named t
  move_worker t xs ys w v e f keep r q =
      let (front, mine, back) = All-middle _ xs w ys (rw e at (h.workers_named)) in
      record {
        reader_named = rw r h.reader_named;
        queue_named = rw q h.queue_named;
        workers_named = rw f (All-append _ xs (v ∷ ys) front (keep mine, back));
      }

  act-Named : (ok : Bool) (a : Action) → IsProper a → Named (act ok a s)
  unfolding act
  act-Named ok (fail e) p = move_reader _ refl refl tt
  act-Named ok (reply sent) p = write-Named ok sent s h
  act-Named ok (admit request n) p = move_reader _ refl refl p
  act-Named ok (cancel none) p = h
  act-Named ok (cancel (some t)) p = move_reader _ refl refl h.reader_named

module _ (json : Json) (unicode : Unicode) (settings : Settings) where
  Step-Named : {s t : State} → Step json unicode settings s t → Named s → Named t
  Step-Named {s} (receive payload started now ok at) h =
      act-Named s h ok _ (handle-IsProper json unicode settings payload started now s.active _ refl)
  Step-Named {s} (lose at) h = move_reader s h _ refl refl tt
  Step-Named {s} (quit at off) h = move_reader s h _ refl refl tt
  Step-Named {s} (register request started at) h =
      move_reader s h _ refl refl (rw at at (h.reader_named))
  Step-Named {s} (enqueue job at room) h = record {
    reader_named = tt;
    queue_named = All-append _ s.queue (job ∷ []) h.queue_named (rw at at (h.reader_named), tt);
    workers_named = h.workers_named;
  }
  Step-Named {s} (abandon job at off) h = move_reader s h _ refl refl tt
  Step-Named {s} (refuse job at full on) h = move_reader s h _ refl refl (rw at at (h.reader_named))
  Step-Named {s} (decline job now ok at) h = write-Named ok _ _ (move_reader s h _ refl refl tt)
  Step-Named {s} (take xs ys job others e q) h =
      let (front, mine, back) = All-middle _ xs idle ys (rw e at (h.workers_named)) in
      let (first, later) = rw q at (h.queue_named) in
      record {
        reader_named = h.reader_named;
        queue_named = later;
        workers_named = All-append _ xs (executing job ∷ ys) front (first, back);
      }
  Step-Named {s} (finish xs ys job result now e) h =
      move_worker s h _ xs ys (executing job) _ e refl
        (λ good. (execute-id unicode job.request job.started now result good).0) refl refl
  Step-Named {s} (delete xs ys job made e) h =
      move_worker s h _ xs ys (executed job made) _ e refl (λ same. same) refl refl
  Step-Named {s} (answer xs ys job made ok e) h =
      write-Named ok _ _
        (move_worker s h _ xs ys (removed job made) _ e refl (λ same. tt) refl refl)
  Step-Named {s} (stop failed) h = move_reader s h _ refl refl h.reader_named

  -- In every reachable state the jobs have well-formed ids, and a worker's response has the id of
  -- its job.
  pub Reach-Named : {s : State} → Reach json unicode settings s → Named s
  Reach-Named begin = record {
    reader_named = tt;
    queue_named = tt;
    workers_named = idle-Named settings.concurrency;
  }
  Reach-Named (next r step) = Step-Named step (Reach-Named r)
