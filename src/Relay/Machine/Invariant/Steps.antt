-- ===== src/Relay/Machine/Invariant/Steps.antt =====
-- Every step of the relay keeps the invariant.
use edukod_companion.Base.{
  ℕ, suc, ◌<◌, ◌≡◌, refl, ap, Bool, true, false, none, some, List, [], ◌∷◌, ◌++◌, arith, Bytes,
  length, All-append, bytes_eq_refl, length-append, Unicode,
}
use edukod_companion.Protocol.Message.{Request, Response}
use edukod_companion.Protocol.Validate.{Json, validate_request}
use edukod_companion.Relay.Options.{Settings}
use edukod_companion.Relay.Machine.{
  Job, Worker, idle, executing, executed, removed, Reader, reading, checked, registered, declined,
  returned, State, Active, remove, enter, write, act, Action, fail, reply, admit, cancel, Sent,
  handle, Step, receive, lose, quit, register, enqueue, abandon, refuse, decline, take, finish,
  delete, answer, stop, Reach, begin, next,
}
use edukod_companion.Relay.Machine.Invariant.{
  Inv, start-Inv, one_if, in_reader, in_queue, in_worker, in_workers, Owns, ReaderOwns, WorkerOwns,
  in_queue-append, in_workers-append, All-middle, remove-queue, remove-workers, remove-reader,
  enter-queue, enter-workers,
}

-- A request is admitted only under an id that is not in the map, and if it is valid.
pub handle_admits :
    (json : Json) (unicode : Unicode) (settings : Settings) (payload : Bytes) (started now : ℕ)
    (active : Active) (r : Request) (n : ℕ)
    → handle json unicode settings payload started now active ≡ admit r n
    → (active r.id ≡ none)
      × (n ≡ started)
      × (validate_request json unicode r started settings.max_request_bytes ≡ none)
unfolding handle
handle_admits json unicode settings payload started now active r n h = ground arith

module _ (concurrency queue_size : ℕ) where
  -- The invariant is about six fields of the state only.
  same-Inv :
      (s t : State)
      → s.reader ≡ t.reader
      → s.active ≡ t.active
      → s.queue ≡ t.queue
      → s.workers ≡ t.workers
      → s.settled ≡ t.settled
      → s.next_token ≡ t.next_token
      → Inv concurrency queue_size s
      → Inv concurrency queue_size t
  same-Inv s t a b c d e f inv = record {
    reader_owns = rw (← a, ← b) inv.reader_owns;
    queue_owns = rw (← c, ← b) inv.queue_owns;
    workers_own = rw (← d, ← b) inv.workers_own;
    accounted = λ u. rw (← a, ← c, ← d, ← e, ← f) (inv.accounted u);
    queue_bound = rw (← c) inv.queue_bound;
    crew = rw (← d) inv.crew;
  }

  write-Inv :
      (ok : Bool) (sent : Sent) (s : State)
      → Inv concurrency queue_size s
      → Inv concurrency queue_size (write ok sent s)
  unfolding write
  write-Inv true sent s inv = same-Inv s _ refl refl refl refl refl refl inv
  write-Inv false sent s inv = same-Inv s _ refl refl refl refl refl refl inv

  -- A reader that holds no job may move on to where it holds none.
  reader-Inv :
      (s : State) (r : Reader)
      → ((t : ℕ) → in_reader t s.reader ≡ 0)
      → ((t : ℕ) → in_reader t r ≡ 0)
      → ReaderOwns s.active r
      → Inv concurrency queue_size s
      → Inv concurrency queue_size (record s { reader = r })
  reader-Inv s r before after own inv = record {
    reader_owns = own;
    queue_owns = inv.queue_owns;
    workers_own = inv.workers_own;
    accounted = λ t. omega (arith, inv.accounted t, before t, after t);
    queue_bound = inv.queue_bound;
    crew = inv.crew;
  }

  act-Inv :
      (ok : Bool) (a : Action) (s : State)
      → s.reader ≡ reading
      → ((r : Request) (n : ℕ) → a ≡ admit r n → s.active r.id ≡ none)
      → Inv concurrency queue_size s
      → Inv concurrency queue_size (act ok a s)
  unfolding act
  act-Inv ok (fail e) s at free inv =
      same-Inv (record s { reader = returned }) _ refl refl refl refl refl refl
        (reader-Inv s returned (λ t. rw at refl) (λ t. refl) tt inv)
  act-Inv ok (reply sent) s at free inv = write-Inv ok sent s inv
  act-Inv ok (admit r n) s at free inv =
      reader-Inv s (checked r n) (λ t. rw at refl) (λ t. refl) (free r n refl) inv
  act-Inv ok (cancel none) s at free inv = inv
  act-Inv ok (cancel (some t)) s at free inv = same-Inv s _ refl refl refl refl refl refl inv

  register-Inv :
      (s : State) (r : Request) (started deadline : ℕ)
      → s.reader ≡ checked r started
      → Inv concurrency queue_size s
      → Inv concurrency queue_size (record s {
        reader =
            registered (record {
              request = r;
              token = s.next_token;
              deadline = deadline;
              started = started;
            });
        active = enter r.id s.next_token s.active;
        next_token = suc s.next_token;
      })
  register-Inv s r started deadline at inv = record {
    reader_owns = rw (bytes_eq_refl r.id) refl;
    queue_owns = enter-queue s.active r.id s.next_token free s.queue inv.queue_owns;
    workers_own = enter-workers s.active r.id s.next_token free s.workers inv.workers_own;
    accounted = λ t. ground (arith, inv.accounted t, ap (in_reader t) at);
    queue_bound = inv.queue_bound;
    crew = inv.crew;
  }
    where
      free : s.active r.id ≡ none
      free = rw at at (inv.reader_owns)

  enqueue-Inv :
      (s : State) (job : Job)
      → s.reader ≡ registered job
      → length s.queue < queue_size
      → Inv concurrency queue_size s
      → Inv concurrency queue_size (record s { reader = reading; queue = s.queue ++ job ∷ [] })
  enqueue-Inv s job at room inv = record {
    reader_owns = tt;
    queue_owns = All-append _ s.queue (job ∷ []) inv.queue_owns (rw at at (inv.reader_owns), tt);
    workers_own = inv.workers_own;
    accounted = λ t.
        omega (arith, inv.accounted t, ap (in_reader t) at, in_queue-append t s.queue (job ∷ []));
    queue_bound = omega (arith, length-append s.queue (job ∷ []));
    crew = inv.crew;
  }

  -- The reader's own job has the only copy of its token.
  reader_alone :
      (s : State) (job : Job)
      → s.reader ≡ registered job
      → Inv concurrency queue_size s
      → (in_queue job.token s.queue ≡ 0) × (in_workers job.token s.workers ≡ 0)
  reader_alone s job at inv = ground (arith, inv.accounted job.token, ap (in_reader job.token) at)

  refuse-Inv :
      (s : State) (job : Job)
      → s.reader ≡ registered job
      → Inv concurrency queue_size s
      → Inv concurrency queue_size
          (record s { reader = declined job; active = remove job.request.id s.active })
  refuse-Inv s job at inv =
      let own : Owns s.active job = rw at at (inv.reader_owns) in
      let (queue_free, workers_free) = reader_alone s job at inv in
      record {
        reader_owns = tt;
        queue_owns =
            remove-queue s.active job.request.id job.token own s.queue queue_free inv.queue_owns;
        workers_own =
            remove-workers s.active job.request.id job.token own s.workers workers_free
              inv.workers_own;
        accounted = λ t. omega (arith, inv.accounted t, ap (in_reader t) at);
        queue_bound = inv.queue_bound;
        crew = inv.crew;
      }

  -- A reader that has its job still, and gives it up.
  give_up-Inv :
      (s : State) (job : Job) (r : Reader)
      → ((t : ℕ) → in_reader t s.reader ≡ one_if t job.token)
      → ((t : ℕ) → in_reader t r ≡ 0)
      → ReaderOwns s.active r
      → Inv concurrency queue_size s
      → Inv concurrency queue_size (record s {
        reader = r;
        canceled = job.token ∷ s.canceled;
        settled = job.token ∷ s.settled;
      })
  give_up-Inv s job r before after own inv = record {
    reader_owns = own;
    queue_owns = inv.queue_owns;
    workers_own = inv.workers_own;
    accounted = λ t. omega (arith, inv.accounted t, before t, after t);
    queue_bound = inv.queue_bound;
    crew = inv.crew;
  }

  -- A worker moves on with its job, and the map stays.
  worker-Inv :
      (s : State) (xs ys : List Worker) (w v : Worker)
      → s.workers ≡ xs ++ w ∷ ys
      → ((t : ℕ) → in_worker t w ≡ in_worker t v)
      → (WorkerOwns s.active w → WorkerOwns s.active v)
      → Inv concurrency queue_size s
      → Inv concurrency queue_size (record s { workers = xs ++ v ∷ ys })
  worker-Inv s xs ys w v e same own inv =
      let (front, mine, back) = All-middle _ xs w ys (rw e at (inv.workers_own)) in
      record {
        reader_owns = inv.reader_owns;
        queue_owns = inv.queue_owns;
        workers_own = All-append _ xs (v ∷ ys) front (own mine, back);
        accounted = λ t. omega (
          arith,
          inv.accounted t,
          ap (in_workers t) e,
          in_workers-append t xs (w ∷ ys),
          in_workers-append t xs (v ∷ ys),
          same t,
        );
        queue_bound = inv.queue_bound;
        crew =
            omega
              (arith, inv.crew, ap length e, length-append xs (w ∷ ys), length-append xs (v ∷ ys));
      }

  take-Inv :
      (s : State) (xs ys : List Worker) (job : Job) (rest : List Job)
      → s.workers ≡ xs ++ idle ∷ ys
      → s.queue ≡ job ∷ rest
      → Inv concurrency queue_size s
      → Inv concurrency queue_size (record s { workers = xs ++ executing job ∷ ys; queue = rest })
  take-Inv s xs ys job rest e q inv =
      let (front, mine, back) = All-middle _ xs idle ys (rw e at (inv.workers_own)) in
      let (first, others) = rw q at (inv.queue_owns) in
      record {
        reader_owns = inv.reader_owns;
        queue_owns = others;
        workers_own = All-append _ xs (executing job ∷ ys) front (first, back);
        accounted = λ t. omega (
          arith,
          inv.accounted t,
          ap (in_workers t) e,
          ap (in_queue t) q,
          in_workers-append t xs (idle ∷ ys),
          in_workers-append t xs (executing job ∷ ys),
        );
        queue_bound = omega (arith, inv.queue_bound, ap length q);
        crew = omega (
          arith,
          inv.crew,
          ap length e,
          length-append xs (idle ∷ ys),
          length-append xs (executing job ∷ ys),
        );
      }

  -- A worker's own job has the only copy of its token.
  worker_alone :
      (s : State) (xs ys : List Worker) (job : Job) (made : Response)
      → s.workers ≡ xs ++ executed job made ∷ ys
      → Inv concurrency queue_size s
      → (in_reader job.token s.reader ≡ 0)
        × (in_queue job.token s.queue ≡ 0)
        × (in_workers job.token xs ≡ 0)
        × (in_workers job.token ys ≡ 0)
  worker_alone s xs ys job made e inv = ground (
    arith,
    inv.accounted job.token,
    ap (in_workers job.token) e,
    in_workers-append job.token xs (executed job made ∷ ys),
  )

  delete-Inv :
      (s : State) (xs ys : List Worker) (job : Job) (made : Response)
      → s.workers ≡ xs ++ executed job made ∷ ys
      → Inv concurrency queue_size s
      → Inv concurrency queue_size (record s {
        workers = xs ++ removed job made ∷ ys;
        active = remove job.request.id s.active;
      })
  delete-Inv s xs ys job made e inv =
      let (front, mine, back) =
        All-middle _ xs (executed job made) ys (rw e at (inv.workers_own)) in
      let (no_reader, no_queue, no_front, no_back) = worker_alone s xs ys job made e inv in
      let id = job.request.id in
      record {
        reader_owns = remove-reader s.active id job.token mine s.reader no_reader inv.reader_owns;
        queue_owns = remove-queue s.active id job.token mine s.queue no_queue inv.queue_owns;
        workers_own =
            All-append _ xs (removed job made ∷ ys)
              (remove-workers s.active id job.token mine xs no_front front)
              (tt, remove-workers s.active id job.token mine ys no_back back);
        accounted = λ t. omega (
          arith,
          inv.accounted t,
          ap (in_workers t) e,
          in_workers-append t xs (executed job made ∷ ys),
          in_workers-append t xs (removed job made ∷ ys),
        );
        queue_bound = inv.queue_bound;
        crew = omega (
          arith,
          inv.crew,
          ap length e,
          length-append xs (executed job made ∷ ys),
          length-append xs (removed job made ∷ ys),
        );
      }

  answer-Inv :
      (s : State) (xs ys : List Worker) (job : Job) (made : Response)
      → s.workers ≡ xs ++ removed job made ∷ ys
      → Inv concurrency queue_size s
      → Inv concurrency queue_size (record s {
        workers = xs ++ idle ∷ ys;
        canceled = job.token ∷ s.canceled;
        settled = job.token ∷ s.settled;
      })
  answer-Inv s xs ys job made e inv =
      let (front, mine, back) = All-middle _ xs (removed job made) ys (rw e at (inv.workers_own)) in
      record {
        reader_owns = inv.reader_owns;
        queue_owns = inv.queue_owns;
        workers_own = All-append _ xs (idle ∷ ys) front (tt, back);
        accounted = λ t. omega (
          arith,
          inv.accounted t,
          ap (in_workers t) e,
          in_workers-append t xs (removed job made ∷ ys),
          in_workers-append t xs (idle ∷ ys),
        );
        queue_bound = inv.queue_bound;
        crew = omega (
          arith,
          inv.crew,
          ap length e,
          length-append xs (removed job made ∷ ys),
          length-append xs (idle ∷ ys),
        );
      }

module _ (json : Json) (unicode : Unicode) (settings : Settings) where
  -- Each step of each goroutine keeps the invariant.
  pub Step-Inv :
      {s t : State}
      → Step json unicode settings s t
      → Inv settings.concurrency settings.queue_size s
      → Inv settings.concurrency settings.queue_size t
  Step-Inv {s} (receive payload started now ok at) inv =
      act-Inv _ _ ok (handle json unicode settings payload started now s.active) s at
        (λ r n e. (handle_admits json unicode settings payload started now s.active r n e).0) inv
  Step-Inv {s} (lose at) inv =
      same-Inv _ _ (record s { reader = returned }) _ refl refl refl refl refl refl
        (reader-Inv _ _ s returned (λ t. rw at refl) (λ t. refl) tt inv)
  Step-Inv {s} (quit at off) inv = reader-Inv _ _ s returned (λ t. rw at refl) (λ t. refl) tt inv
  Step-Inv {s} (register r n at) inv = register-Inv _ _ s r n _ at inv
  Step-Inv {s} (enqueue job at room) inv = enqueue-Inv _ _ s job at room inv
  Step-Inv {s} (abandon job at off) inv =
      give_up-Inv _ _ s job returned (λ t. ap (in_reader t) at) (λ t. refl) tt inv
  Step-Inv {s} (refuse job at full on) inv = refuse-Inv _ _ s job at inv
  Step-Inv {s} (decline job now ok at) inv =
      write-Inv _ _ ok _ _
        (give_up-Inv _ _ s job reading (λ t. ap (in_reader t) at) (λ t. refl) tt inv)
  Step-Inv {s} (take xs ys job rest e q) inv = take-Inv _ _ s xs ys job rest e q inv
  Step-Inv {s} (finish xs ys job result now e) inv =
      worker-Inv _ _ s xs ys (executing job) _ e (λ t. refl) (λ h. h) inv
  Step-Inv {s} (delete xs ys job made e) inv = delete-Inv _ _ s xs ys job made e inv
  Step-Inv {s} (answer xs ys job made ok e) inv =
      write-Inv _ _ ok _ _ (answer-Inv _ _ s xs ys job made e inv)
  Step-Inv {s} (stop failed) inv = same-Inv _ _ s _ refl refl refl refl refl refl inv

  -- Whatever the gateway sends and however the goroutines interleave, every reachable state has
  -- its queue within the limit and the full number of workers, every job that waits or runs owns
  -- the entry under its id, and every token is at one place, or was settled once.
  pub Reach-Inv :
      {s : State} → Reach json unicode settings s → Inv settings.concurrency settings.queue_size s
  Reach-Inv begin = start-Inv settings.concurrency settings.queue_size
  Reach-Inv (next r st) = Step-Inv st (Reach-Inv r)
