-- ===== src/Relay/Machine/Ledger/Counts.antt =====
-- How often a token stands in a state of `Serve`, as one of its workers or its reader moves.
use edukod_companion.Base.{ℕ, ◌+◌, ◌≡◌, ap, List, [], ◌∷◌, ◌++◌, arith, Unicode, Bytes}
use edukod_companion.Protocol.Validate.{Json}
use edukod_companion.Protocol.Message.{Response}
use edukod_companion.Relay.Options.{Settings}
use edukod_companion.Relay.Machine.{Job, Worker, idle, removed, State, Reach}
use edukod_companion.Relay.Machine.Invariant.{
  in_reader, one_if, in_worker, in_workers, in_workers-append,
}
use edukod_companion.Relay.Machine.Invariant.Steps.{Reach-Inv}
use edukod_companion.Relay.Machine.Ledger.{under_queue, under_worker, under_workers, ledger}

pub under_queue-append :
    (t : ℕ) (id : Bytes) (xs ys : List Job)
    → under_queue t id (xs ++ ys) ≡ under_queue t id xs + under_queue t id ys
under_queue-append t id [] ys = omega arith
under_queue-append t id (x ∷ xs) ys = omega (arith, under_queue-append t id xs ys)

pub under_workers-append :
    (t : ℕ) (id : Bytes) (xs ys : List Worker)
    → under_workers t id (xs ++ ys) ≡ under_workers t id xs + under_workers t id ys
under_workers-append t id [] ys = omega arith
under_workers-append t id (x ∷ xs) ys = omega (arith, under_workers-append t id xs ys)

-- A worker moves on.
pub worker-count :
    (s : State) (xs ys : List Worker) (w v : Worker) (t : ℕ)
    → s.workers ≡ xs ++ w ∷ ys
    → in_workers t (xs ++ v ∷ ys) + in_worker t w ≡ in_workers t s.workers + in_worker t v
worker-count s xs ys w v t e =
    omega
      (arith, ap (in_workers t) e, in_workers-append t xs (w ∷ ys), in_workers-append t xs (v ∷ ys))

pub worker-under :
    (s : State) (xs ys : List Worker) (w v : Worker) (t : ℕ) (id : Bytes)
    → s.workers ≡ xs ++ w ∷ ys
    → under_workers t id (xs ++ v ∷ ys) + under_worker t id w
      ≡ under_workers t id s.workers + under_worker t id v
worker-under s xs ys w v t id e = omega (
  arith,
  ap (under_workers t id) e,
  under_workers-append t id xs (w ∷ ys),
  under_workers-append t id xs (v ∷ ys),
)

module _ (json : Json) (unicode : Unicode) (settings : Settings) where
  pub reader_once :
      (s : State) (job : Job)
      → Reach json unicode settings s
      → ((t : ℕ) → in_reader t s.reader ≡ one_if t job.token)
      → (ledger s).open_with job.token ≡ 1
  reader_once s job r its =
      ground (arith, (Reach-Inv json unicode settings r).accounted job.token, its job.token)

  pub worker_once :
      (s : State) (xs ys : List Worker) (job : Job) (made : Response)
      → Reach json unicode settings s
      → s.workers ≡ xs ++ removed job made ∷ ys
      → (ledger s).open_with job.token ≡ 1
  worker_once s xs ys job made r e = ground (
    arith,
    (Reach-Inv json unicode settings r).accounted job.token,
    worker-count s xs ys (removed job made) idle job.token e,
  )
