-- ===== src/App/Loop/Backoff.antt =====
-- How long the reconnect loop waits.
use edukod_companion.Base.{
  ℕ, suc, ◌+◌, ◌*◌, ◌^◌, ◌≤◌, ◌<◌, ◌≡◌, refl, ap, ◌∙◌, false, Option, none, some, List, [], ◌∷◌,
  arith, Bytes, length, All, Result, ok, err, min,
}
use native.Mathlib.Nat.{pow-suc, add-zero, zero-add}
use edukod_companion.Relay.Options.{ns_per_second}
use edukod_companion.App.Loop.{
  Event, save_status, announce, unavailable, wait, Round, Vars, initial, max_uint64, jitter,
  next_backoff, after_dial, on_dial, round, continue, run,
}

abbrev pub IsBackoff : ℕ → Type 0
IsBackoff b = (ns_per_second ≤ b) × (b ≤ 30 * ns_per_second)

-- The jitter of a base in range: a quarter more or less.
pub jitter_bounds :
    (base random : ℕ)
    → 0 < base
    → random ≤ max_uint64
    → (base * 3 ≤ 4 * jitter base (some random) + 3) × (4 * jitter base (some random) ≤ base * 5)
unfolding jitter
jitter_bounds base random pos fits = ground (arith, scaled)
  where
    scaled : base * random ≤ base * max_uint64
    scaled = grind arith

next_backoff-IsBackoff : (v : Vars) (now : ℕ) → IsBackoff v.backoff → IsBackoff (next_backoff v now)
unfolding next_backoff
next_backoff-IsBackoff v now h = ground arith

after_dial-IsBackoff :
    (v : Vars) (r : Round) (e : Option Bytes) {w : Vars}
    → IsBackoff v.backoff
    → (after_dial v r e).0 ≡ some w
    → IsBackoff w.backoff
unfolding after_dial
after_dial-IsBackoff v r e h k = ground (arith, next_backoff-IsBackoff v r.resumed_at h)

abbrev pub RandomFits : Option ℕ → Type 0
RandomFits none = Unit {0}
RandomFits (some n) = n ≤ max_uint64

-- From three quarters of a second to 37.5 seconds.
abbrev pub WaitInRange : Event → Type 0
WaitInRange (wait d) = (750_000_000 ≤ d) × (d ≤ 37_500_000_000)
WaitInRange (save_status s) = Unit {0}
WaitInRange announce = Unit {0}
WaitInRange (unavailable m) = Unit {0}

pub jitter_in_range :
    (b : ℕ) (random : Option ℕ)
    → IsBackoff b
    → RandomFits random
    → WaitInRange (wait (jitter b random))
jitter_in_range b none h fits = unfold jitter in ground arith
jitter_in_range b (some n) h fits =
    let (lo, hi) = jitter_bounds b n (omega arith) fits in omega arith

on_dial-IsBackoff :
    (v : Vars) (r : Round) (d : Result Bytes ℕ) {w : Vars}
    → IsBackoff v.backoff
    → (on_dial v r d).0 ≡ some w
    → IsBackoff w.backoff
unfolding on_dial
on_dial-IsBackoff v r (err x) h k = after_dial-IsBackoff v r (some x) h k
on_dial-IsBackoff v r (ok now) h k =
    after_dial-IsBackoff (record v { last_connected_at = some now }) r r.served h k

pub round-IsBackoff :
    (v : Vars) (r : Round) {w : Vars}
    → IsBackoff v.backoff
    → (round v r).0 ≡ some w
    → IsBackoff w.backoff
unfolding round
round-IsBackoff v r {w} h k = ground (arith, on_dial-IsBackoff v r r.dial {w = w} h)

-- A round in which no connection comes about and nobody ends the program.
pub record IsFailure (r : Round) : Type 0 where
  pub at_top : r.canceled_at_top ≡ false
  pub dial : (text : Bytes) × (r.dial ≡ err text)
  pub after : r.canceled_after ≡ false
  pub waiting : r.canceled_waiting ≡ false

on_dial_failure :
    (v : Vars) (r : Round) (text : Bytes)
    → r.canceled_after ≡ false
    → r.canceled_waiting ≡ false
    → (on_dial v r (err text)).0 ≡ some (record v { backoff = next_backoff v r.resumed_at })
unfolding on_dial after_dial
on_dial_failure v r text a b = ground arith

round_failure :
    (v : Vars) (r : Round)
    → IsFailure r
    → (round v r).0 ≡ some (record v { backoff = next_backoff v r.resumed_at })
unfolding round
round_failure v r f = simp (f.at_top, f.dial.1) (on_dial_failure v r f.dial.0 f.after f.waiting)

continue-some :
    (a : Option Vars × List Event) (rest : Vars → Option Vars × List Event) (w : Vars)
    → a.0 ≡ some w
    → (continue a rest).0 ≡ (rest w).0
unfolding continue
continue-some (none, events) rest w h = cc
continue-some (some v, events) rest w h = let e : v ≡ w = cc h in ap (λ (u : Vars). (rest u).0) e

run_failure :
    (v : Vars) (r : Round) (rs : List Round)
    → IsFailure r
    → (run v (r ∷ rs)).0 ≡ (run (record v { backoff = next_backoff v r.resumed_at }) rs).0
unfolding run
run_failure v r rs f =
    continue-some (round v r) (λ w. run w rs) (record v { backoff = next_backoff v r.resumed_at })
      (round_failure v r f)

-- The doubled seconds, up to 30.
abbrev pub doubled : ℕ → ℕ
doubled n = min (ns_per_second * 2 ^ n) (30 * ns_per_second)

next_backoff-doubled :
    (v : Vars) (n now : ℕ)
    → v.last_connected_at ≡ none
    → v.backoff ≡ doubled n
    → next_backoff v now ≡ doubled (suc n)
unfolding next_backoff
next_backoff-doubled v n now never b = ground (arith, pow-suc 2 n)

run_doubles :
    (v : Vars) (n : ℕ) (rs : List Round)
    → v.last_connected_at ≡ none
    → v.backoff ≡ doubled n
    → All IsFailure rs
    → (w : Vars) × ((run v rs).0 ≡ some w)
      × (w.backoff ≡ doubled (n + length rs))
      × (w.last_connected_at ≡ none)
run_doubles v n [] never b fs = (v, unfold run in refl, rw (add-zero n) b, never)
run_doubles v n (r ∷ rs) never b fs =
    let v' = record v { backoff = next_backoff v r.resumed_at } in
    let (w, e, d, still) =
      run_doubles v' (suc n) rs never (next_backoff-doubled v n r.resumed_at never b) fs.1 in
    (w, run_failure v r rs fs.0 ∙ e, d ∙ ap doubled (omega arith), still)

-- Until a first connection comes about, the backoff doubles with each failed round, from one
-- second up to 30.
pub backoff_doubles :
    (rs : List Round)
    → All IsFailure rs
    → (w : Vars) × ((run initial rs).0 ≡ some w)
      × (w.backoff ≡ min (ns_per_second * 2 ^ length rs) (30 * ns_per_second))
backoff_doubles rs fs =
    let (w, e, d, never) = run_doubles initial 0 rs refl refl fs in
    (w, e, d ∙ ap doubled (zero-add (length rs)))

-- A failed round whose timer fires at least 30 seconds after the last connection was made.
abbrev pub IsLate : ℕ → Round → Type 0
IsLate connected_at r = IsFailure r × (connected_at + 30 * ns_per_second ≤ r.resumed_at)

next_backoff_late :
    (v : Vars) (connected_at now : ℕ)
    → v.last_connected_at ≡ some connected_at
    → connected_at + 30 * ns_per_second ≤ now
    → next_backoff v now ≡ 2 * ns_per_second
unfolding next_backoff
next_backoff_late v connected_at now last late = simp last (ground arith)

-- Once a connection was made, failed rounds later than 30 seconds after that all leave a backoff
-- of two seconds, however many they are: in a long outage the backoff does not grow.
pub backoff_stuck :
    (v : Vars) (connected_at : ℕ) (r : Round) (rs : List Round)
    → v.last_connected_at ≡ some connected_at
    → All (IsLate connected_at) (r ∷ rs)
    → (run v (r ∷ rs)).0 ≡ some (record v { backoff = 2 * ns_per_second })
backoff_stuck v connected_at r [] last late =
    run_failure v r [] late.0.0
    ∙ unfold run in
      ap (λ b. some (record v { backoff = b }))
        (next_backoff_late v connected_at r.resumed_at last late.0.1)
backoff_stuck v connected_at r (q ∷ rs) last late =
    run_failure v r (q ∷ rs) late.0.0
    ∙ backoff_stuck (record v { backoff = next_backoff v r.resumed_at }) connected_at q rs last
        late.1
