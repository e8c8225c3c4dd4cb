-- ===== src/Relay/Machine/Invariant.antt =====
-- What holds between any two steps of the relay's goroutines: whose entry is in the map, and
-- where each token is.
pub mod Steps
use edukod_companion.Base.{
  ℕ, zero, suc, ◌+◌, ◌≤◌, ◌<◌, ◌≡◌, ◌≢◌, refl, ap, sym, ◌∙◌, Bool, true, false, Option, none, some,
  List, [], ◌∷◌, ◌++◌, arith, Bytes, length, replicate, All, All-append, bytes_eq, bytes_eq_iff,
  if◌then◌else◌, ltb, ◌==◌, length-append, Bool-cases, inl, inr,
}
use edukod_companion.Relay.Machine.{
  Job, Worker, idle, executing, executed, removed, Reader, reading, checked, registered, declined,
  returned, State, start, Active, remove, enter, write, act, Action, fail, reply, admit, cancel,
  Sent,
}

abbrev pub one_if : ℕ → ℕ → ℕ
one_if t u = if t == u then 1 else 0

-- How often a token stands at each place.
abbrev pub in_reader : ℕ → Reader → ℕ
in_reader t reading = 0
in_reader t (checked r n) = 0
in_reader t (registered job) = one_if t job.token
in_reader t (declined job) = one_if t job.token
in_reader t returned = 0

abbrev pub in_queue : ℕ → List Job → ℕ
in_queue t [] = 0
in_queue t (job ∷ jobs) = one_if t job.token + in_queue t jobs

abbrev pub in_worker : ℕ → Worker → ℕ
in_worker t idle = 0
in_worker t (executing job) = one_if t job.token
in_worker t (executed job r) = one_if t job.token
in_worker t (removed job r) = one_if t job.token

abbrev pub in_workers : ℕ → List Worker → ℕ
in_workers t [] = 0
in_workers t (w ∷ ws) = in_worker t w + in_workers t ws

abbrev pub count : ℕ → List ℕ → ℕ
count t [] = 0
count t (u ∷ us) = one_if t u + count t us

-- The map holds the job's own token under its id.
abbrev pub Owns : Active → Job → Type 0
Owns active job = active job.request.id ≡ some job.token

abbrev pub ReaderOwns : Active → Reader → Type 0
ReaderOwns active reading = Unit {0}
ReaderOwns active (checked r n) = active r.id ≡ none
ReaderOwns active (registered job) = Owns active job
ReaderOwns active (declined job) = Unit {0}
ReaderOwns active returned = Unit {0}

abbrev pub WorkerOwns : Active → Worker → Type 0
WorkerOwns active idle = Unit {0}
WorkerOwns active (executing job) = Owns active job
WorkerOwns active (executed job r) = Owns active job
WorkerOwns active (removed job r) = Unit {0}

pub record Inv (concurrency queue_size : ℕ) (s : State) : Type 0 where
  pub reader_owns : ReaderOwns s.active s.reader
  pub queue_owns : All (Owns s.active) s.queue
  pub workers_own : All (WorkerOwns s.active) s.workers
  pub accounted :
      (t : ℕ)
      → in_reader t s.reader + in_queue t s.queue + in_workers t s.workers + count t s.settled
        ≡ (if ltb t s.next_token then 1 else 0)
  pub queue_bound : length s.queue ≤ queue_size
  pub crew : length s.workers ≡ concurrency

pub in_queue-append :
    (t : ℕ) (xs ys : List Job) → in_queue t (xs ++ ys) ≡ in_queue t xs + in_queue t ys
in_queue-append t [] ys = omega arith
in_queue-append t (x ∷ xs) ys = omega (arith, in_queue-append t xs ys)

pub in_workers-append :
    (t : ℕ) (xs ys : List Worker) → in_workers t (xs ++ ys) ≡ in_workers t xs + in_workers t ys
in_workers-append t [] ys = omega arith
in_workers-append t (x ∷ xs) ys = omega (arith, in_workers-append t xs ys)

-- A predicate on all of a list, at one member, and with that member replaced.
pub All-middle {ℓ κ} :
    {A : Type ℓ} (P : A → Type κ) (xs : List A) (y : A) (ys : List A)
    → All P (xs ++ y ∷ ys)
    → All P xs × P y × All P ys
All-middle P [] y ys h = (tt, h.0, h.1)
All-middle P (x ∷ xs) y ys h = let (a, b, c) = All-middle P xs y ys h.1 in ((h.0, a), b, c)

-- Deleting an id leaves the entries of all jobs with other tokens.
remove-Owns :
    (active : Active) (id : Bytes) (t : ℕ) (job : Job)
    → active id ≡ some t
    → one_if t job.token ≡ 0
    → Owns active job
    → Owns (remove id active) job
remove-Owns active id t job own other h = elim (Bool-cases (bytes_eq id job.request.id)) [
  | inl same ↦ absurd (ground (arith, ap active ((bytes_eq_iff id job.request.id).0 same)))
  | inr differs ↦ rw differs h
]

-- A new entry under a free id leaves the entries of all jobs.
enter-Owns :
    (active : Active) (id : Bytes) (t : ℕ) (job : Job)
    → active id ≡ none
    → Owns active job
    → Owns (enter id t active) job
enter-Owns active id t job free h = elim (Bool-cases (bytes_eq id job.request.id)) [
  | inl same ↦ absurd (ground (arith, ap active ((bytes_eq_iff id job.request.id).0 same)))
  | inr differs ↦ rw differs h
]

-- The same over the queue, the workers and the reader.
module _ (active : Active) (id : Bytes) (t : ℕ) where
  pub remove-queue :
      active id ≡ some t
      → (jobs : List Job) → in_queue t jobs ≡ 0
      → All (Owns active) jobs
      → All (Owns (remove id active)) jobs
  remove-queue own [] none_left h = tt
  remove-queue own (job ∷ jobs) none_left h =
      (remove-Owns active id t job own (omega arith) h.0, remove-queue own jobs (omega arith) h.1)

  remove-worker :
      active id ≡ some t
      → (w : Worker) → in_worker t w ≡ 0
      → WorkerOwns active w
      → WorkerOwns (remove id active) w
  remove-worker own idle other h = tt
  remove-worker own (executing job) other h = remove-Owns active id t job own other h
  remove-worker own (executed job r) other h = remove-Owns active id t job own other h
  remove-worker own (removed job r) other h = tt

  pub remove-workers :
      active id ≡ some t
      → (ws : List Worker) → in_workers t ws ≡ 0
      → All (WorkerOwns active) ws
      → All (WorkerOwns (remove id active)) ws
  remove-workers own [] none_left h = tt
  remove-workers own (w ∷ ws) none_left h =
      (remove-worker own w (omega arith) h.0, remove-workers own ws (omega arith) h.1)

  pub remove-reader :
      active id ≡ some t
      → (r : Reader) → in_reader t r ≡ 0
      → ReaderOwns active r
      → ReaderOwns (remove id active) r
  remove-reader own reading other h = tt
  remove-reader own (checked request n) other h = ground arith
  remove-reader own (registered job) other h = remove-Owns active id t job own other h
  remove-reader own (declined job) other h = tt
  remove-reader own returned other h = tt

  pub enter-queue :
      active id ≡ none
      → (jobs : List Job) → All (Owns active) jobs
      → All (Owns (enter id t active)) jobs
  enter-queue free [] h = tt
  enter-queue free (job ∷ jobs) h = (enter-Owns active id t job free h.0, enter-queue free jobs h.1)

  enter-worker :
      active id ≡ none → (w : Worker) → WorkerOwns active w → WorkerOwns (enter id t active) w
  enter-worker free idle h = tt
  enter-worker free (executing job) h = enter-Owns active id t job free h
  enter-worker free (executed job r) h = enter-Owns active id t job free h
  enter-worker free (removed job r) h = tt

  pub enter-workers :
      active id ≡ none
      → (ws : List Worker) → All (WorkerOwns active) ws
      → All (WorkerOwns (enter id t active)) ws
  enter-workers free [] h = tt
  enter-workers free (w ∷ ws) h = (enter-worker free w h.0, enter-workers free ws h.1)

idle_crew :
    (active : Active) (t n : ℕ)
    → All (WorkerOwns active) (replicate n idle)
      × (in_workers t (replicate n idle) ≡ 0)
      × (length (replicate n idle) ≡ n)
idle_crew active t zero = (tt, refl, refl)
idle_crew active t (suc n) =
    let (a, b, c) = idle_crew active t n in ((tt, a), omega arith, ap suc c)

pub start-Inv : (concurrency queue_size : ℕ) → Inv concurrency queue_size (start concurrency)
start-Inv concurrency queue_size = record {
  reader_owns = tt;
  queue_owns = tt;
  workers_own = (idle_crew (λ id. none) 0 concurrency).0;
  accounted = λ t. ground (arith, idle_crew (λ id. none) t concurrency);
  queue_bound = omega arith;
  crew = (idle_crew (λ id. none) 0 concurrency).2;
}
