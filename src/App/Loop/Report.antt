-- ===== src/App/Loop/Report.antt =====
-- What the reconnect loop gives to `SaveStatus`.
use edukod_companion.Base.{
  ℕ, ◌≡◌, refl, true, false, Option, none, some, List, [], ◌∷◌, ◌++◌, arith, Bytes, Result, ok, err,
  Bool-cases, inl, inr,
}
use edukod_companion.App.Loop.{
  Status, Event, save_status, announce, unavailable, wait, Round, Vars, after_dial, on_dial, round,
  continue, run,
}

-- The last status that was given to `SaveStatus` in some events.
pub last_report : Option Status → List Event → Option Status
last_report o [] = o
last_report o (save_status s ∷ es) = last_report (some s) es
last_report o (announce ∷ es) = last_report o es
last_report o (unavailable m ∷ es) = last_report o es
last_report o (wait d ∷ es) = last_report o es

last_report-append :
    (o : Option Status) (xs ys : List Event)
    → last_report o (xs ++ ys) ≡ last_report (last_report o xs) ys
unfolding last_report
last_report-append o [] ys = refl
last_report-append o (save_status s ∷ es) ys = last_report-append (some s) es ys
last_report-append o (announce ∷ es) ys = last_report-append o es ys
last_report-append o (unavailable m ∷ es) ys = last_report-append o es ys
last_report-append o (wait d ∷ es) ys = last_report-append o es ys

-- The report says that the companion is not connected, and when it was last.
abbrev pub SaysDisconnected : Option Vars → Option Status → Type 0
SaysDisconnected v none = ⊥
SaysDisconnected none (some s) = s.connected ≡ false
SaysDisconnected (some v) (some s) =
    (s.connected ≡ false) × (s.last_connected_at ≡ v.last_connected_at)

after_dial_says :
    (o : Option Status) (v : Vars) (r : Round) (e : Option Bytes)
    → SaysDisconnected (after_dial v r e).0 (last_report o (after_dial v r e).1)
unfolding after_dial last_report
after_dial_says o v r e = ground arith

on_dial_says :
    (o : Option Status) (v : Vars) (r : Round) (d : Result Bytes ℕ)
    → SaysDisconnected (on_dial v r d).0 (last_report o (on_dial v r d).1)
unfolding on_dial last_report
on_dial_says o v r (err x) = after_dial_says o v r (some x)
on_dial_says o v r (ok now) =
    after_dial_says
      (some (record { connected = true; last_connected_at = some now; last_error = [] }))
      (record v { last_connected_at = some now }) r r.served

round_says :
    (o : Option Status) (v : Vars) (r : Round)
    → SaysDisconnected (round v r).0 (last_report o (round v r).1)
unfolding round
round_says o v r = elim (Bool-cases r.canceled_at_top) [
  | inl off ↦ simp off (unfold last_report in refl)
  | inr on ↦ simp on (on_dial_says o v r r.dial)
]

continue_says :
    (o : Option Status) (a : Option Vars × List Event) (rest : Vars → Option Vars × List Event)
    → SaysDisconnected a.0 (last_report o a.1)
    → ((w : Vars) (o' : Option Status)
        → SaysDisconnected (some w) o'
        → SaysDisconnected (rest w).0 (last_report o' (rest w).1))
    → SaysDisconnected (continue a rest).0 (last_report o (continue a rest).1)
unfolding continue
continue_says o (none, events) rest h more = h
continue_says o (some w, events) rest h more =
    rw (last_report-append o events (rest w).1) (more w (last_report o events) h)

run_keeps :
    (o : Option Status) (v : Vars) (rs : List Round)
    → SaysDisconnected (some v) o
    → SaysDisconnected (run v rs).0 (last_report o (run v rs).1)
unfolding run
run_keeps o v [] h = unfold last_report in h
run_keeps o v (r ∷ rs) h =
    continue_says o (round v r) (λ w. run w rs) (round_says o v r) (λ w o' k. run_keeps o' w rs k)

-- Whenever the loop has gone through a round, whether it goes on or has returned, the last status
-- that it gave to `SaveStatus` says that the companion is not connected; while it goes on, that
-- status has the time of its last connection.
pub run_says :
    (o : Option Status) (v : Vars) (r : Round) (rs : List Round)
    → SaysDisconnected (run v (r ∷ rs)).0 (last_report o (run v (r ∷ rs)).1)
unfolding run
run_says o v r rs =
    continue_says o (round v r) (λ w. run w rs) (round_says o v r) (λ w o' k. run_keeps o' w rs k)
