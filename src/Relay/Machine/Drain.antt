-- ===== src/Relay/Machine/Drain.antt =====
-- The end of `Serve`: once the reader has returned, the workers run the channel dry.
use edukod_companion.Base.{
  ℕ, zero, suc, ◌+◌, ◌*◌, ◌<◌, ◌≡◌, refl, ap, ◌∙◌, Bool, true, false, ◌||◌, List, [], ◌∷◌, ◌++◌,
  arith, length, All, Unicode, ◌⊎◌, inl, inr, err,
}
use edukod_companion.Protocol.Validate.{Json}
use edukod_companion.Relay.Options.{Settings}
use edukod_companion.Relay.Execute.{errors_new, execute}
use edukod_companion.Relay.Machine.{
  Job, Worker, idle, executing, executed, removed, returned, State, write, response, Reach, Step,
  receive, lose, quit, register, enqueue, abandon, refuse, decline, take, finish, delete, answer,
  stop, next,
}
use edukod_companion.Relay.Machine.Runs.{Runs, here, onward}
use edukod_companion.Relay.Machine.Invariant.{in_workers, count}
use edukod_companion.Relay.Machine.Invariant.Steps.{Reach-Inv}
use edukod_companion.Relay.Machine.Guarantees.{settled_once}

-- How many steps a worker, the workers and the channel still have before them.
abbrev pub steps_of : Worker → ℕ
steps_of idle = 0
steps_of (executing job) = 3
steps_of (executed job r) = 2
steps_of (removed job r) = 1

abbrev pub steps_left : List Worker → ℕ
steps_left [] = 0
steps_left (w ∷ ws) = steps_of w + steps_left ws

abbrev pub work_left : State → ℕ
work_left s = 4 * length s.queue + steps_left s.workers

steps_left-append : (xs ys : List Worker) → steps_left (xs ++ ys) ≡ steps_left xs + steps_left ys
steps_left-append [] ys = omega arith
steps_left-append (x ∷ xs) ys = omega (arith, steps_left-append xs ys)

-- A step of the main goroutine only marks the relay as stopped.
abbrev pub OnlyStops : State → State → Type 0
OnlyStops s t =
    (failed : Bool) × (t ≡ record s { stopped = true; write_failed = s.write_failed || failed })

steps_left-middle :
    (s : State) (xs ys : List Worker) (w v : Worker)
    → s.workers ≡ xs ++ w ∷ ys
    → steps_left (xs ++ v ∷ ys) + steps_of w ≡ steps_left s.workers + steps_of v
steps_left-middle s xs ys w v e =
    omega (arith, ap steps_left e, steps_left-append xs (w ∷ ys), steps_left-append xs (v ∷ ys))

write-work :
    (ok : Bool) (sent : _) (s : State)
    → (work_left (write ok sent s) ≡ work_left s) × ((write ok sent s).reader ≡ s.reader)
unfolding write
write-work true sent s = (refl, refl)
write-work false sent s = (refl, refl)

abbrev pub IsIdle : Worker → Type 0
IsIdle idle = Unit {0}
IsIdle (executing job) = ⊥
IsIdle (executed job r) = ⊥
IsIdle (removed job r) = ⊥

-- Where a worker is busy, or that none is.
abbrev Busy : List Worker → Type 0
Busy ws =
    (xs : List Worker) × (w : Worker) × (ys : List Worker) × (ws ≡ xs ++ w ∷ ys) × (0 < steps_of w)

skip-IsIdle :
    (w : Worker) (ws : List Worker)
    → All IsIdle ws ⊎ Busy ws
    → IsIdle w
    → All IsIdle (w ∷ ws) ⊎ Busy (w ∷ ws)
skip-IsIdle w ws (inl free) i = inl (i, free)
skip-IsIdle w ws (inr (xs, v, ys, e, busy)) i =
    inr (w ∷ xs, v, ys, ap (λ (l : List Worker). w ∷ l) e, busy)

find-Busy : (ws : List Worker) → All IsIdle ws ⊎ Busy ws
find-Busy [] = inl tt
find-Busy (idle ∷ ws) = skip-IsIdle idle ws (find-Busy ws) tt
find-Busy (executing job ∷ ws) = inr ([], executing job, ws, refl, omega arith)
find-Busy (executed job r ∷ ws) = inr ([], executed job r, ws, refl, omega arith)
find-Busy (removed job r ∷ ws) = inr ([], removed job r, ws, refl, omega arith)

idle_work : (t : ℕ) (ws : List Worker) → All IsIdle ws → in_workers t ws ≡ 0
idle_work t [] h = refl
idle_work t (idle ∷ ws) h = omega (arith, idle_work t ws h.1)
idle_work t (executing job ∷ ws) h = absurd h.0
idle_work t (executed job r ∷ ws) h = absurd h.0
idle_work t (removed job r ∷ ws) h = absurd h.0

module _ (json : Json) (unicode : Unicode) (settings : Settings) where
  -- After the reader's return every step leaves it there, and is a stop or takes work away: no
  -- schedule of the goroutines goes on for ever.
  pub drain_decreases :
      {s t : State}
      → Step json unicode settings s t
      → s.reader ≡ returned
      → (t.reader ≡ returned) × (OnlyStops s t ⊎ (work_left t < work_left s))
  drain_decreases (receive payload started now sent at) gone = absurd (cc)
  drain_decreases (lose at) gone = absurd (cc)
  drain_decreases (quit at off) gone = absurd (cc)
  drain_decreases (register r n at) gone = absurd (cc)
  drain_decreases (enqueue job at room) gone = absurd (cc)
  drain_decreases (abandon job at off) gone = absurd (cc)
  drain_decreases (refuse job at full on) gone = absurd (cc)
  drain_decreases (decline job now sent at) gone = absurd (cc)
  drain_decreases {s} (take xs ys job rest e q) gone =
      (gone, inr (omega (arith, ap length q, steps_left-middle s xs ys idle (executing job) e)))
  drain_decreases {s} (finish xs ys job result now e) gone = (
    gone,
    inr (
        omega (
          arith,
          steps_left-middle s xs ys (executing job)
              (executed job (execute unicode job.request job.started result now)) e,
        )),
  )
  drain_decreases {s} (delete xs ys job made e) gone = (
    gone,
    inr (omega (arith, steps_left-middle s xs ys (executed job made) (removed job made) e)),
  )
  drain_decreases {s} (answer xs ys job made sent e) gone =
      let (same, at) = write-work sent (response made) _ in
      (at ∙ gone, inr (omega (arith, same, steps_left-middle s xs ys (removed job made) idle e)))
  drain_decreases {s} (stop failed) gone = (gone, inl (failed, refl))

  -- A step that takes work away.
  abbrev Progress : State → Type 0
  Progress s = (t : State) × Step json unicode settings s t × (work_left t < work_left s)

  work_on :
      (s : State) (xs ys : List Worker) (w : Worker)
      → s.workers ≡ xs ++ w ∷ ys
      → 0 < steps_of w
      → Progress s
  work_on s xs ys idle e busy = absurd (omega arith)
  work_on s xs ys (executing job) e busy =
      let made = execute unicode job.request job.started (err (errors_new [])) job.started in
      (
        _,
        finish xs ys job (err (errors_new [])) job.started e,
        omega (arith, steps_left-middle s xs ys (executing job) (executed job made) e),
      )
  work_on s xs ys (executed job made) e busy = (
    _,
    delete xs ys job made e,
    omega (arith, steps_left-middle s xs ys (executed job made) (removed job made) e),
  )
  work_on s xs ys (removed job made) e busy = (
    _,
    answer xs ys job made true e,
    omega (
      arith,
      (write-work true (response made) (record s {
        workers = xs ++ idle ∷ ys;
        canceled = job.token ∷ s.canceled;
        settled = job.token ∷ s.settled;
      })).0,
      steps_left-middle s xs ys (removed job made) idle e,
    ),
  )

  -- A free crew takes the next job.
  take_on :
      (s : State) (job : Job) (rest : List Job) (ws : List Worker)
      → s.workers ≡ ws
      → All IsIdle ws
      → 0 < length ws
      → s.queue ≡ job ∷ rest
      → Progress s
  take_on s job rest [] e free some_crew q = absurd (omega arith)
  take_on s job rest (idle ∷ ws) e free some_crew q = (
    _,
    take [] ws job rest e q,
    omega (arith, ap length q, steps_left-middle s [] ws idle (executing job) e),
  )
  take_on s job rest (executing j ∷ ws) e free some_crew q = absurd free.0
  take_on s job rest (executed j r ∷ ws) e free some_crew q = absurd free.0
  take_on s job rest (removed j r ∷ ws) e free some_crew q = absurd free.0

  abbrev IsDrained : State → Type 0
  IsDrained s = (s.queue ≡ []) × All IsIdle s.workers

  IsDrained-or_Progress : (s : State) → 0 < length s.workers → IsDrained s ⊎ Progress s
  IsDrained-or_Progress s some_crew = go (find-Busy s.workers) s.queue refl
    where
      go :
          All IsIdle s.workers ⊎ Busy s.workers
          → (q : List Job) → s.queue ≡ q
          → IsDrained s ⊎ Progress s
      go (inr (xs, w, ys, e, busy)) q h = inr (work_on s xs ys w e busy)
      go (inl free) [] h = inl (h, free)
      go (inl free) (job ∷ rest) h = inr (take_on s job rest s.workers refl free some_crew h)

  -- The drained states that a state with `k` steps of work leads to.
  Drains : State → Type 0
  Drains s =
      (t : State) × Runs json unicode settings s t
      × Reach json unicode settings t
      × IsDrained t
      × ((u : ℕ) → u < t.next_token → count u t.settled ≡ 1)

  drain_within :
      (k : ℕ) (s : State)
      → Reach json unicode settings s
      → s.reader ≡ returned
      → 0 < settings.concurrency
      → work_left s < k
      → Drains s
  unfolding Drains
  drain_within zero s r gone some_crew h = absurd (omega arith)
  drain_within (suc k) s r gone some_crew h =
      elim (IsDrained-or_Progress s (omega (arith, (Reach-Inv json unicode settings r).crew))) [
        | inl (empty, free) ↦ (
          s,
          here,
          r,
          (empty, free),
          λ u made.
              (settled_once json unicode settings u r).1 (rw gone refl) empty
                (idle_work u s.workers free) made,
        )
        | inr (t, step, less) ↦
            let fewer : work_left t < k = omega arith in
            let (u, run, reached, drained, once) =
              drain_within k t (next r step) (drain_decreases step gone).0 some_crew fewer in
            (u, onward step run, reached, drained, once)
      ]

  -- From every reachable state in which the reader has returned, and with at least one worker, steps
  -- lead to a state in which the channel is empty and all workers are free; there, each job that was
  -- ever made was answered or given up exactly once.
  pub drains :
      {s : State}
      → Reach json unicode settings s
      → s.reader ≡ returned
      → 0 < settings.concurrency
      → (t : State) × Runs json unicode settings s t
        × (t.queue ≡ [])
        × All IsIdle t.workers
        × ((u : ℕ) → u < t.next_token → count u t.settled ≡ 1)
  unfolding Drains
  drains {s} r gone some_crew =
      let (t, run, reached, (empty, free), once) =
        drain_within (suc (work_left s)) s r gone some_crew (omega arith) in
      (t, run, empty, free, once)
