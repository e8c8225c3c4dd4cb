-- ===== src/Relay/Tests.antt =====
-- A short life of a relay, and the theorems at concrete options, errors and states.
use mathlib.Core.List.{Memᴰ}
use edukod_companion.Base.{
  ℕ, suc, ◌<◌, ◌≡◌, refl, ap, ◌↔◌, true, none, some, [], ◌∷◌, ◌++◌, arith, codes, length, All,
  bytes_eq, to_upper, trim_space, Unicode, Result, ok, err, if◌then◌else◌, ◌⊎◌, ◌||◌, false,
}
use edukod_companion.Protocol.Id.{matches_id}
use edukod_companion.Protocol.Message.{pos, negsuc, Request, error_response}
use edukod_companion.Protocol.Validate.{
  Json, validate_request, validate_cancel, type_request, type_cancel, models_path, method_get,
}
use edukod_companion.Relay.Options.{Options, Settings}
use edukod_companion.Relay.Execute.{GoError, errors_new, Reply, execute, execute-id}
use edukod_companion.Relay.Machine.{
  Job, job_deadline, idle, executing, reading, checked, registered, returned, State, start, enter,
  handle, act, cancel, reply, response, Reach, begin, next, receive, register, enqueue, take, lose,
  stop, abandon, ReadError, connection_failed, duplicate_request, fail, invalid_json,
}
use edukod_companion.Relay.Machine.Invariant.{Inv, count}
use edukod_companion.Relay.Machine.Invariant.Steps.{Reach-Inv}
use edukod_companion.Relay.Machine.Guarantees.{
  DistinctIds, live_jobs, live_ids_distinct, cancel_reaches_job, duplicate_refused,
}
use edukod_companion.Relay.Machine.Ledger.{Move, ledger}
use edukod_companion.Relay.Machine.Ledger.Moves.{Step-Move}
use edukod_companion.Relay.Machine.Ending.{Selects, read_failed, fail-Selects}
use edukod_companion.Relay.Machine.Runs.{Runs, here}
use edukod_companion.Relay.Machine.Drain.{drain_decreases, drains, OnlyStops, work_left, IsIdle}

abbrev options : Options
options = record {
  device_id = codes "device-1";
  device_name = codes "desk";
  max_request_bytes = pos 0;
  max_response_bytes = negsuc 3;
  concurrency = pos 1;
  queue_size = pos 2;
  heartbeat = pos 0;
  default_timeout = pos 0;
}

abbrev settings : Settings
settings = record {
  device_id = codes "device-1";
  device_name = codes "desk";
  max_request_bytes = 100;
  max_response_bytes = 100;
  concurrency = 1;
  queue_size = 2;
  heartbeat = 1;
  default_timeout = 1000;
}

abbrev request : Request
request = record {
  type = codes "request";
  id = codes "r1";
  method = codes "GET";
  path = codes "/v1/models";
  deadline_unix_ms = pos 0;
  body = [];
}

-- A decoder that knows a request, the payload 1, and its cancellation, the payload 2.
abbrev json : Json
json = record {
  valid = λ _. true;
  decode_object = λ _. none;
  decode_bool = λ _. none;
  decode_type = λ p. if bytes_eq p (1 ∷ []) then some (codes "request") else some (codes "cancel");
  decode_request = λ _. some request;
  decode_cancel = λ _. some (record { type = codes "cancel"; id = codes "r1" });
  decode_ping = λ _. none;
}

abbrev unicode : Unicode
unicode = record { upper = λ s. s; lower = λ s. s }

abbrev admitting : State
admitting = act true (handle json unicode settings (1 ∷ []) 7 7 (start 1).active) (start 1)

admitting_checked : admitting.reader ≡ checked request 7
unfolding act handle type_request validate_request matches_id bytes_eq models_path method_get
    to_upper trim_space
admitting_checked = refl

abbrev job : Job
job = record {
  request = request;
  token = admitting.next_token;
  deadline = job_deadline 1000 (pos 0) 7;
  started = 7;
}

abbrev with_job : State
with_job = record admitting {
  reader = registered job;
  active = enter request.id admitting.next_token admitting.active;
  next_token = suc admitting.next_token;
}

with_job-Reach : Reach json unicode settings with_job
with_job-Reach =
    next (next begin (receive (1 ∷ []) 7 7 true refl)) (register request 7 admitting_checked)

with_job-member : Memᴰ job (live_jobs with_job)
with_job-member = Memᴰ.head refl

execute-id_example :
    ((execute unicode request 7 (err (errors_new [])) 9).id ≡ request.id)
    × (((execute unicode request 7 (err (errors_new [])) 9).error_code ≡ [])
        ↔ ((r : Reply) × (◌≡◌ {A = Result GoError Reply} (err (errors_new [])) (ok r))))
unfolding matches_id
execute-id_example = execute-id unicode request 7 9 (err (errors_new [])) refl

Reach-Inv_example : Inv 1 2 with_job
Reach-Inv_example = Reach-Inv json unicode settings with_job-Reach

live_ids_distinct_example : DistinctIds (live_jobs with_job)
live_ids_distinct_example = live_ids_distinct json unicode settings with_job-Reach

cancel_reaches_job_example :
    handle json unicode settings (2 ∷ []) 8 9 with_job.active ≡ cancel (some job.token)
unfolding type_cancel validate_cancel matches_id bytes_eq
cancel_reaches_job_example =
    cancel_reaches_job json unicode settings job (2 ∷ []) 8 9
      (record { type = codes "cancel"; id = codes "r1" }) with_job-Reach with_job-member
      (omega arith) refl refl refl refl

duplicate_refused_example :
    handle json unicode settings (1 ∷ []) 8 9 with_job.active
    ≡ reply (
        response
          (error_response request.id duplicate_request (codes "request id is already active") 8 9))
unfolding type_request validate_request matches_id bytes_eq models_path method_get to_upper
    trim_space
duplicate_refused_example =
    duplicate_refused json unicode settings job (1 ∷ []) 8 9 request with_job-Reach with_job-member
      (omega arith) refl refl refl refl

abbrev ending : State
ending = record with_job { stopped = true; write_failed = with_job.write_failed || false }

ending-Reach : Reach json unicode settings ending
ending-Reach = next with_job-Reach (stop false)

abbrev given_up : State
given_up = record ending {
  reader = returned;
  canceled = job.token ∷ ending.canceled;
  settled = job.token ∷ ending.settled;
}

Step-Move_example : Move (ledger ending) (ledger given_up)
Step-Move_example = Step-Move json unicode settings ending-Reach (abandon job refl refl)

abbrev queued : State
queued = record with_job { reader = reading; queue = with_job.queue ++ job ∷ [] }

with_job-queue : with_job.queue ≡ []
unfolding act handle type_request validate_request matches_id bytes_eq models_path method_get
    to_upper trim_space
with_job-queue = refl

queued-Reach : Reach json unicode settings queued
queued-Reach = next with_job-Reach (enqueue job refl (omega (arith, ap length with_job-queue)))

abbrev closing : State
closing = record queued { reader = returned; read_error = some connection_failed }

closing-Reach : Reach json unicode settings closing
closing-Reach = next queued-Reach (lose refl)

-- A decoder that finds no JSON.
abbrev no_json : Json
no_json = record json { decode_type = λ p. none }

refused : handle no_json unicode settings [] 7 7 queued.active ≡ fail invalid_json
unfolding handle
refused = refl

fail-Selects_example :
    ((act true (handle no_json unicode settings [] 7 7 queued.active) queued).reader ≡ returned)
    × Selects false
        (act true (handle no_json unicode settings [] 7 7 queued.active) queued)
        (read_failed invalid_json)
    × ((other : ReadError)
        → Selects false
            (act true (handle no_json unicode settings [] 7 7 queued.active) queued)
            (read_failed other)
        → other ≡ invalid_json)
fail-Selects_example =
    fail-Selects no_json unicode settings false true [] 7 7 invalid_json queued
      (act true (handle no_json unicode settings [] 7 7 queued.active) queued) refused here

drains_example :
    (t : State) × Runs json unicode settings closing t
    × (t.queue ≡ [])
    × All IsIdle t.workers
    × ((u : ℕ) → u < t.next_token → count u t.settled ≡ 1)
drains_example = drains json unicode settings closing-Reach refl (omega arith)

abbrev taken : State
taken = record closing { workers = [] ++ executing job ∷ []; queue = [] }

closing-workers : closing.workers ≡ [] ++ idle ∷ []
unfolding act handle type_request validate_request matches_id bytes_eq models_path method_get
    to_upper trim_space
closing-workers = refl

closing-queue : closing.queue ≡ job ∷ []
unfolding act handle type_request validate_request matches_id bytes_eq models_path method_get
    to_upper trim_space
closing-queue = refl

drain_decreases_example :
    (taken.reader ≡ returned) × (OnlyStops closing taken ⊎ (work_left taken < work_left closing))
drain_decreases_example =
    drain_decreases json unicode settings (take [] [] job [] closing-workers closing-queue) refl
