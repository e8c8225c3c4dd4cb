-- ===== src/Relay/Machine/Ending.antt =====
-- relay.go, the last `select` of `Serve` and what follows it: which error the relay returns.
use edukod_companion.Base.{◌≡◌, refl, ℕ, Bytes, Bool, true, false, some, Unicode}
use edukod_companion.Protocol.Validate.{Json}
use edukod_companion.Relay.Options.{Settings}
use edukod_companion.Relay.Machine.Runs.{Runs, here, onward}
use edukod_companion.Relay.Machine.{
  ReadError, returned, State, write, act, fail, handle, Step, receive, lose, quit, register,
  enqueue, abandon, refuse, decline, take, finish, delete, answer, stop,
}

pub data ServeError : Type 0 where
  context_ended write_error : ServeError
  read_failed : ReadError → ServeError

-- The cases of the `select` that are ready in a state. `ended` says whether the program's own
-- context has ended; of several cases that are ready, any may be taken.
pub data Selects (ended : Bool) (s : State) : ServeError → Type 0 where
  by_context : ended ≡ true → Selects ended s context_ended
  by_reader : (e : ReadError) → s.read_error ≡ some e → Selects ended s (read_failed e)
  by_writer : s.write_failed ≡ true → Selects ended s write_error
  by_stop : s.stopped ≡ true → Selects ended s context_ended

-- The reader has returned with an error.
abbrev pub HasFailed : ReadError → State → Type 0
HasFailed e s = (s.reader ≡ returned) × (s.read_error ≡ some e)

write-HasFailed :
    (e : ReadError) (ok : Bool) (sent : _) (s : State)
    → HasFailed e s
    → HasFailed e (write ok sent s)
unfolding write
write-HasFailed e true sent s h = h
write-HasFailed e false sent s h = h

module _ (json : Json) (unicode : Unicode) (settings : Settings) where
  Step-HasFailed :
      (e : ReadError) {s t : State} → Step json unicode settings s t → HasFailed e s → HasFailed e t
  Step-HasFailed e (receive payload started now ok at) h = absurd (cc)
  Step-HasFailed e (lose at) h = absurd (cc)
  Step-HasFailed e (quit at off) h = absurd (cc)
  Step-HasFailed e (register request started at) h = absurd (cc)
  Step-HasFailed e (enqueue job at room) h = absurd (cc)
  Step-HasFailed e (abandon job at off) h = absurd (cc)
  Step-HasFailed e (refuse job at full on) h = absurd (cc)
  Step-HasFailed e (decline job now ok at) h = absurd (cc)
  Step-HasFailed e (take xs ys job others x q) h = h
  Step-HasFailed e (finish xs ys job result now x) h = h
  Step-HasFailed e (delete xs ys job made x) h = h
  Step-HasFailed e (answer xs ys job made ok x) h = write-HasFailed e ok _ _ h
  Step-HasFailed e (stop failed) h = h

  Runs-HasFailed :
      (e : ReadError) {s t : State} → Runs json unicode settings s t → HasFailed e s → HasFailed e t
  Runs-HasFailed e here h = h
  Runs-HasFailed e (onward step run) h = Runs-HasFailed e run (Step-HasFailed e step h)

  selected :
      (ended : Bool) (e other : ReadError) (s : State)
      → HasFailed e s
      → Selects ended s (read_failed other)
      → other ≡ e
  selected ended e other s h (by_reader x found) = cc

  -- A message that the reader refuses ends it, with the error of that message: in every later
  -- state the reader has returned, and the last `select` of `Serve` has this error ready and no
  -- other one of the reader.
  pub fail-Selects :
      (ended ok : Bool) (payload : Bytes) (started now : ℕ) (e : ReadError) (s u : State)
      → handle json unicode settings payload started now s.active ≡ fail e
      → Runs json unicode settings
          (act ok (handle json unicode settings payload started now s.active) s)
          u
      → (u.reader ≡ returned)
        × Selects ended u (read_failed e)
        × ((other : ReadError) → Selects ended u (read_failed other) → other ≡ e)
  unfolding act
  fail-Selects ended ok payload started now e s u refused run =
      let h : HasFailed e u = Runs-HasFailed e run (rw refused (refl, refl)) in
      (h.0, by_reader e h.1, λ other x. selected ended e other u h x)
