-- ===== src/Relay/Machine/Ledger/Moves.antt =====
-- The steps of `Serve` as moves of the ledger of its requests.
use edukod_companion.Base.{
  ℕ, ◌≡◌, refl, ap, Bool, true, false, none, some, List, [], ◌∷◌, ◌++◌, arith, Unicode, ◌⊎◌, inl,
  inr, Bytes,
}
use edukod_companion.Protocol.Id.{matches_id}
use edukod_companion.Protocol.Validate.{Json}
use edukod_companion.Protocol.Message.{Response, error_response-id}
use edukod_companion.Relay.Options.{Settings}
use edukod_companion.Relay.Machine.{
  Job, Worker, idle, executing, executed, removed, Reader, reading, checked, declined, returned,
  State, Active, write, response, act, Action, fail, reply, admit, cancel, Sent, remove, handle,
  busy, Step, receive, lose, quit, register, enqueue, abandon, refuse, decline, take, finish,
  delete, answer, stop, Reach,
}
use edukod_companion.Relay.Machine.Invariant.{
  one_if, in_reader, in_queue, in_worker, in_workers, in_queue-append, All-middle,
}
use edukod_companion.Relay.Machine.Named.{IsProper, handle-IsProper, WorkerNamed, Reach-Named}
use edukod_companion.Relay.Machine.Ledger.{
  Ledger, SameRequests, Move, rest, notice, open_next, close_one, under_reader, under_job,
  under_queue, under_worker, under_workers, ledger,
}
use edukod_companion.Relay.Machine.Ledger.Counts.{
  under_queue-append, worker-count, worker-under, reader_once, worker_once,
}

-- What was sent and whether the relay has stopped is beside the requests.
same-SameRequests :
    (a : Ledger) (sent : List Sent) (stopped : Bool)
    → SameRequests a (record a { sent_messages = sent; has_stopped = stopped })
same-SameRequests a sent stopped = record {
  with_token = λ t. refl;
  under_id = λ t id. refl;
  admissions = refl;
  closings = refl;
}

-- The reader leaves a place where it has no request for another such.
reader-rest :
    (s : State) (r : Reader)
    → ((t : ℕ) → in_reader t s.reader ≡ 0)
    → ((t : ℕ) (id : Bytes) → under_reader t id s.reader ≡ 0)
    → ((t : ℕ) → in_reader t r ≡ 0)
    → ((t : ℕ) (id : Bytes) → under_reader t id r ≡ 0)
    → Move (ledger s) (ledger (record s { reader = r }))
reader-rest s r before before_id after after_id =
    rest
      (record {
        with_token = λ t. omega (arith, before t, after t);
        under_id = λ t id. omega (arith, before_id t id, after_id t id);
        admissions = refl;
        closings = refl;
      })
      refl

from_reading :
    (s : State) (r : Reader)
    → s.reader ≡ reading
    → ((t : ℕ) → in_reader t r ≡ 0)
    → ((t : ℕ) (id : Bytes) → under_reader t id r ≡ 0)
    → Move (ledger s) (ledger (record s { reader = r }))
from_reading s r at after after_id =
    reader-rest s r (λ t. ap (in_reader t) at) (λ t id. ap (under_reader t id) at) after after_id

act-Move :
    (ok : Bool) (a : Action) (s : State)
    → s.reader ≡ reading
    → IsProper a
    → Move (ledger s) (ledger (act ok a s))
unfolding act write
act-Move ok (fail e) s at p = from_reading s returned at (λ t. refl) (λ t id. refl)
act-Move true (reply sent) s at p = notice sent p (same-SameRequests (ledger s) _ _) refl
act-Move false (reply sent) s at p = rest (same-SameRequests (ledger s) _ _) refl
act-Move ok (admit r n) s at p = from_reading s (checked r n) at (λ t. refl) (λ t id. refl)
act-Move ok (cancel none) s at p = rest (same-SameRequests (ledger s) _ _) refl
act-Move ok (cancel (some token)) s at p = rest (same-SameRequests (ledger s) _ _) refl

-- A worker moves on with its job.
worker-rest :
    (s : State) (xs ys : List Worker) (w v : Worker) (active : Active)
    → s.workers ≡ xs ++ w ∷ ys
    → ((t : ℕ) → in_worker t v ≡ in_worker t w)
    → ((t : ℕ) (id : Bytes) → under_worker t id v ≡ under_worker t id w)
    → Move (ledger s) (ledger (record s { workers = xs ++ v ∷ ys; active = active }))
worker-rest s xs ys w v active e same same_id =
    rest
      (record {
        with_token = λ t. omega (arith, worker-count s xs ys w v t e, same t);
        under_id = λ t id. omega (arith, worker-under s xs ys w v t id e, same_id t id);
        admissions = refl;
        closings = refl;
      })
      refl

module _ (json : Json) (unicode : Unicode) (settings : Settings) where
  -- The reader gives its job up, and the message that it sends, if any.
  reader-close :
      (s t : State) (job : Job)
      → Reach json unicode settings s
      → ((u : ℕ) → in_reader u s.reader ≡ one_if u job.token)
      → ((u : ℕ) (id : Bytes) → under_reader u id s.reader ≡ under_job u id job)
      → t.queue ≡ s.queue
      → t.workers ≡ s.workers
      → ((u : ℕ) → in_reader u t.reader ≡ 0)
      → ((u : ℕ) (id : Bytes) → under_reader u id t.reader ≡ 0)
      → t.next_token ≡ s.next_token
      → t.settled ≡ job.token ∷ s.settled
      → ((t.stopped ≡ true) × (t.outbox ≡ s.outbox))
        ⊎ ((made : Response) × (made.id ≡ job.request.id)
            × (t.outbox ≡ s.outbox ++ response made ∷ []))
      → Move (ledger s) (ledger t)
  reader-close s t job r its its_id q w gone gone_id n c sent =
      close_one job.token job.request.id (reader_once json unicode settings s job r its)
        (λ u. omega (arith, its u, gone u, ap (in_queue u) q, ap (in_workers u) w))
        (λ u id.
          omega
            (arith, its_id u id, gone_id u id, ap (under_queue u id) q, ap (under_workers u id) w))
        n c sent

  -- A worker is done with its job, and the same of its message.
  worker-close :
      (s t : State) (xs ys : List Worker) (job : Job) (made : Response)
      → Reach json unicode settings s
      → s.workers ≡ xs ++ removed job made ∷ ys
      → t.workers ≡ xs ++ idle ∷ ys
      → t.reader ≡ s.reader
      → t.queue ≡ s.queue
      → t.next_token ≡ s.next_token
      → t.settled ≡ job.token ∷ s.settled
      → ((t.stopped ≡ true) × (t.outbox ≡ s.outbox))
        ⊎ ((made : Response) × (made.id ≡ job.request.id)
            × (t.outbox ≡ s.outbox ++ response made ∷ []))
      → Move (ledger s) (ledger t)
  worker-close s t xs ys job made r e f same_reader q n c sent =
      close_one job.token job.request.id (worker_once json unicode settings s xs ys job made r e)
        (λ u. omega (
          arith,
          worker-count s xs ys (removed job made) idle u e,
          ap (in_workers u) f,
          ap (in_reader u) same_reader,
          ap (in_queue u) q,
        ))
        (λ u id. omega (
          arith,
          worker-under s xs ys (removed job made) idle u id e,
          ap (under_workers u id) f,
          ap (under_reader u id) same_reader,
          ap (under_queue u id) q,
        ))
        n c sent

  refused-id :
      (s : State) (job : Job)
      → Reach json unicode settings s
      → s.reader ≡ declined job
      → matches_id job.request.id ≡ true
  refused-id s job r at = rw at at ((Reach-Named json unicode settings r).reader_named)

  answered-id :
      (s : State) (xs ys : List Worker) (job : Job) (made : Response)
      → Reach json unicode settings s
      → s.workers ≡ xs ++ removed job made ∷ ys
      → made.id ≡ job.request.id
  answered-id s xs ys job made r e =
      (All-middle WorkerNamed xs (removed job made) ys
        (rw e at ((Reach-Named json unicode settings r).workers_named))).1

  -- `Serve` refines the ledger: in every reachable state each step of each goroutine is one move of
  -- the ledger. A request is opened under the next token and its own id. When the one open request
  -- with a token is closed, exactly one message is sent, a response that has its id, or the relay
  -- has stopped and nothing is sent. Any other step sends nothing, or one notice of the reader: a
  -- pong, or the refusal of a request as bad or as a duplicate.
  pub Step-Move :
      {s t : State}
      → Reach json unicode settings s
      → Step json unicode settings s t
      → Move (ledger s) (ledger t)
  unfolding write
  Step-Move {s} r (receive payload started now ok at) =
      act-Move ok (handle json unicode settings payload started now s.active) s at
        (handle-IsProper json unicode settings payload started now s.active _ refl)
  Step-Move {s} r (lose at) = from_reading s returned at (λ t. refl) (λ t id. refl)
  Step-Move {s} r (quit at off) = from_reading s returned at (λ t. refl) (λ t id. refl)
  Step-Move {s} r (register request started at) =
      open_next request.id (λ t. omega (arith, ap (in_reader t) at))
        (λ t id. omega (arith, ap (under_reader t id) at)) refl refl refl
  Step-Move {s} r (enqueue job at room) =
      rest
        (record {
          with_token =
              λ t. omega (arith, ap (in_reader t) at, in_queue-append t s.queue (job ∷ []));
          under_id = λ t id.
              omega (arith, ap (under_reader t id) at, under_queue-append t id s.queue (job ∷ []));
          admissions = refl;
          closings = refl;
        })
        refl
  Step-Move {s} {t} r (abandon job at off) =
      reader-close s t job r (λ u. ap (in_reader u) at) (λ u id. ap (under_reader u id) at) refl
        refl (λ u. refl) (λ u id. refl) refl refl (inl (off, refl))
  Step-Move {s} r (refuse job at full on) =
      rest
        (record {
          with_token = λ t. omega (arith, ap (in_reader t) at);
          under_id = λ t id. omega (arith, ap (under_reader t id) at);
          admissions = refl;
          closings = refl;
        })
        refl
  Step-Move {s} {t} r (decline job now true at) =
      reader-close s t job r (λ u. ap (in_reader u) at) (λ u id. ap (under_reader u id) at) refl
        refl (λ u. refl) (λ u id. refl) refl refl
        (inr (
          _,
          (error_response-id job.request.id busy _ job.started now).1 (refused-id s job r at),
          refl,
        ))
  Step-Move {s} {t} r (decline job now false at) =
      reader-close s t job r (λ u. ap (in_reader u) at) (λ u id. ap (under_reader u id) at) refl
        refl (λ u. refl) (λ u id. refl) refl refl (inl (refl, refl))
  Step-Move {s} r (take xs ys job others e q) =
      rest
        (record {
          with_token =
              λ t. omega (arith, worker-count s xs ys idle (executing job) t e, ap (in_queue t) q);
          under_id = λ t id.
              omega
                (arith, worker-under s xs ys idle (executing job) t id e, ap (under_queue t id) q);
          admissions = refl;
          closings = refl;
        })
        refl
  Step-Move {s} r (finish xs ys job result now e) =
      worker-rest s xs ys (executing job) _ s.active e (λ t. refl) (λ t id. refl)
  Step-Move {s} r (delete xs ys job made e) =
      worker-rest s xs ys (executed job made) _ (remove job.request.id s.active) e (λ t. refl)
        (λ t id. refl)
  Step-Move {s} {t} r (answer xs ys job made true e) =
      worker-close s t xs ys job made r e refl refl refl refl refl
        (inr (made, answered-id s xs ys job made r e, refl))
  Step-Move {s} {t} r (answer xs ys job made false e) =
      worker-close s t xs ys job made r e refl refl refl refl refl (inl (refl, refl))
  Step-Move {s} r (stop failed) = rest (same-SameRequests (ledger s) _ _) refl
