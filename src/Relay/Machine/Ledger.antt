-- ===== src/Relay/Machine/Ledger.antt =====
-- What `Serve` promises about the requests that it admits, as a ledger: the map, the channel and
-- the workers are forgotten.
pub mod Counts
pub mod Moves
use edukod_companion.Base.{
  ℕ, suc, ◌+◌, ◌≡◌, refl, ap, Bool, true, false, none, some, List, [], ◌∷◌, ◌++◌, arith, Unicode,
  ◌⊎◌, inl, inr, Bytes, bytes_eq, if◌then◌else◌,
}
use edukod_companion.Protocol.Id.{matches_id}
use edukod_companion.Protocol.Validate.{Json}
use edukod_companion.Protocol.Message.{Response, error_response-id}
use edukod_companion.Relay.Options.{Settings}
use edukod_companion.Relay.Machine.{
  Job, Worker, idle, executing, executed, removed, Reader, reading, checked, registered, declined,
  returned, State, Active, write, response, act, Action, fail, reply, admit, cancel, Sent, handle,
  busy, Step, receive, lose, quit, register, enqueue, abandon, refuse, take, finish, delete, answer,
  stop, Reach,
}
use edukod_companion.Relay.Machine.Invariant.{
  one_if, in_reader, in_queue, in_worker, in_workers, in_queue-append, in_workers-append,
  All-middle,
}
use edukod_companion.Relay.Machine.Invariant.Steps.{Reach-Inv}
use edukod_companion.Relay.Machine.Named.{
  IsNotice, IsProper, handle-IsProper, WorkerNamed, Reach-Named,
}

-- How many open requests have a token, and how many have it and an id; how many were admitted, the
-- tokens of the closed ones, the newest first, what was sent, and whether the relay has stopped.
pub record Ledger : Type 0 where
  pub open_with : ℕ → ℕ
  pub open_under : ℕ → Bytes → ℕ
  pub admitted : ℕ
  pub closed : List ℕ
  pub sent_messages : List Sent
  pub has_stopped : Bool

-- One for a token and an id.
abbrev pub one_under : ℕ → Bytes → ℕ → Bytes → ℕ
one_under t id u other = if bytes_eq id other then one_if t u else 0

pub record SameRequests (a b : Ledger) : Type 0 where
  pub with_token : (t : ℕ) → b.open_with t ≡ a.open_with t
  pub under_id : (t : ℕ) (id : Bytes) → b.open_under t id ≡ a.open_under t id
  pub admissions : b.admitted ≡ a.admitted
  pub closings : b.closed ≡ a.closed

-- One move of the ledger: nothing; a notice is sent; the next token is opened under an id, and
-- nothing is sent; or the one open request with a token is closed, it was open under an id, and
-- exactly one message is sent, a response with this id, or the relay has stopped and nothing is
-- sent.
pub data Move (a b : Ledger) : Type 0 where
  rest : SameRequests a b → b.sent_messages ≡ a.sent_messages → Move a b
  notice :
      (sent : Sent)
      → IsNotice sent
      → SameRequests a b
      → b.sent_messages ≡ a.sent_messages ++ sent ∷ []
      → Move a b
  open_next :
      (id : Bytes)
      → ((t : ℕ) → b.open_with t ≡ a.open_with t + one_if t a.admitted)
      → ((t : ℕ) (other : Bytes)
          → b.open_under t other ≡ a.open_under t other + one_under t other a.admitted id)
      → b.admitted ≡ suc a.admitted
      → b.closed ≡ a.closed
      → b.sent_messages ≡ a.sent_messages
      → Move a b
  close_one :
      (token : ℕ) (id : Bytes)
      → a.open_with token ≡ 1
      → ((t : ℕ) → b.open_with t + one_if t token ≡ a.open_with t)
      → ((t : ℕ) (other : Bytes)
          → b.open_under t other + one_under t other token id ≡ a.open_under t other)
      → b.admitted ≡ a.admitted
      → b.closed ≡ token ∷ a.closed
      → ((b.has_stopped ≡ true) × (b.sent_messages ≡ a.sent_messages))
        ⊎ ((made : Response) × (made.id ≡ id)
            × (b.sent_messages ≡ a.sent_messages ++ response made ∷ []))
      → Move a b

-- How often a token stands at each place with a job of one id.
abbrev pub under_job : ℕ → Bytes → Job → ℕ
under_job t id job = one_under t id job.token job.request.id

abbrev pub under_reader : ℕ → Bytes → Reader → ℕ
under_reader t id reading = 0
under_reader t id (checked r n) = 0
under_reader t id (registered job) = under_job t id job
under_reader t id (declined job) = under_job t id job
under_reader t id returned = 0

abbrev pub under_queue : ℕ → Bytes → List Job → ℕ
under_queue t id [] = 0
under_queue t id (job ∷ jobs) = under_job t id job + under_queue t id jobs

abbrev pub under_worker : ℕ → Bytes → Worker → ℕ
under_worker t id idle = 0
under_worker t id (executing job) = under_job t id job
under_worker t id (executed job r) = under_job t id job
under_worker t id (removed job r) = under_job t id job

abbrev pub under_workers : ℕ → Bytes → List Worker → ℕ
under_workers t id [] = 0
under_workers t id (w ∷ ws) = under_worker t id w + under_workers t id ws

-- The ledger of a state: the requests in the reader, the channel and the workers are open.
abbrev pub ledger : State → Ledger
ledger s = record {
  open_with = λ t. in_reader t s.reader + in_queue t s.queue + in_workers t s.workers;
  open_under =
      λ t id. under_reader t id s.reader + under_queue t id s.queue + under_workers t id s.workers;
  admitted = s.next_token;
  closed = s.settled;
  sent_messages = s.outbox;
  has_stopped = s.stopped;
}
