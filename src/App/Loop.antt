-- ===== src/App/Loop.antt =====
-- app.go: the loop of `run`, one round at a time. What happens in a round (the dial, the relay,
-- signals, clocks, random bytes) is a record; what the loop does is a list of events.
pub mod Backoff
pub mod Pace
pub mod Report
use edukod_companion.Base.{
  ℕ, zero, suc, ◌+◌, ◌-◌, ◌*◌, ◌/◌, ◌^◌, ◌≤◌, ◌<◌, ◌≡◌, refl, Bool, true, false, Option, none, some,
  List, [], ◌∷◌, ◌++◌, arith, Bytes, ltb, leb, ◌==◌, if◌then◌else◌, Result, ok, err,
}
use edukod_companion.Relay.Options.{ns_per_second}
use edukod_companion.App.SafeError.{safe_error}

-- `config.RuntimeStatus` as the loop fills it in; a zero time is `none`, and the device id, the
-- same in all of them, is left out.
pub record Status : Type 0 where
  pub connected : Bool
  pub last_connected_at : Option ℕ
  pub last_error : Bytes

pub data Event : Type 0 where
  save_status : Status → Event
  announce : Event  -- "Connected to ... as ..."
  unavailable : Bytes → Event
  wait : ℕ → Event

-- Times are nanoseconds. `random` is the number that the eight random bytes make.
pub record Round : Type 0 where
  pub canceled_at_top : Bool
  pub dial : Result Bytes ℕ  -- an error's text, or the time of the connection
  pub served : Option Bytes  -- the error that `relay.Serve` returned
  pub canceled_after : Bool
  pub random : Option ℕ
  pub canceled_waiting : Bool
  pub resumed_at : ℕ  -- when the timer fired

-- The variables of the loop.
pub record Vars : Type 0 where
  pub backoff : ℕ
  pub last_connected_at : Option ℕ

abbrev pub initial : Vars
initial = record { backoff = ns_per_second; last_connected_at = none }

abbrev pub max_uint64 : ℕ
max_uint64 = 2 ^ 64 - 1

-- `jitter` in exact arithmetic: between 3/4 and 5/4 of the base, by the eight random bytes. Go
-- computes it in float64, which may differ in the last places. `none`: `rand.Read` has failed.
unfoldable pub jitter : ℕ → Option ℕ → ℕ
jitter base none = if base == 0 then ns_per_second else base
jitter base (some random) =
    if base == 0 then ns_per_second else base * (3 * max_uint64 + 2 * random) / (4 * max_uint64)

-- Is the last connection, if there was one, 30 seconds old?
unfoldable pub is_settled : Option ℕ → ℕ → Bool
is_settled none now = false
is_settled (some connected_at) now = leb (30 * ns_per_second) (now - connected_at)

unfoldable pub next_backoff : Vars → ℕ → ℕ
unfolding is_settled
next_backoff v now =
    let base = if is_settled v.last_connected_at now then ns_per_second else v.backoff in
    if ltb (30 * ns_per_second) (base * 2) then 30 * ns_per_second else base * 2

abbrev pub disconnected : Option ℕ → Bytes → Event
disconnected last message =
    save_status (record { connected = false; last_connected_at = last; last_error = message })

-- From the second test of the context on. `none` in front: the loop has returned nil.
after_dial : Vars → Round → Option Bytes → Option Vars × List Event
after_dial v r error =
    if r.canceled_after
    then (none, disconnected v.last_connected_at [] ∷ [])
    else let message = safe_error error in
      let events =
        disconnected v.last_connected_at message
        ∷ unavailable message
        ∷ wait (jitter v.backoff r.random)
        ∷ [] in
      if r.canceled_waiting
      then (none, events)
      else (some (record v { backoff = next_backoff v r.resumed_at }), events)

prefix : List Event → Option Vars × List Event → Option Vars × List Event
prefix events (v, more) = (v, events ++ more)

on_dial : Vars → Round → Result Bytes ℕ → Option Vars × List Event
unfolding after_dial prefix
on_dial v r (err text) = after_dial v r (some text)
on_dial v r (ok now) =
    prefix
      (save_status (record { connected = true; last_connected_at = some now; last_error = [] })
        ∷ announce
        ∷ [])
      (after_dial (record v { last_connected_at = some now }) r r.served)

unfoldable pub round : Vars → Round → Option Vars × List Event
unfolding on_dial
round v r =
    if r.canceled_at_top
    then (none, disconnected v.last_connected_at [] ∷ [])
    else on_dial v r r.dial

-- Rounds one after the other, up to the return.
continue : Option Vars × List Event → (Vars → Option Vars × List Event) → Option Vars × List Event
unfolding prefix
continue (none, events) rest = (none, events)
continue (some v, events) rest = prefix events (rest v)

unfoldable pub run : Vars → List Round → Option Vars × List Event
unfolding round continue
run v [] = (some v, [])
run v (r ∷ rs) = continue (round v r) (λ w. run w rs)
