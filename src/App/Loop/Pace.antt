-- ===== src/App/Loop/Pace.antt =====
-- The reconnect loop waits in each of its rounds.
use edukod_companion.Base.{
  ℕ, ◌≡◌, refl, ap, true, Option, none, some, List, [], ◌∷◌, ◌++◌, Bytes, Result, ok, err, All,
  Bool-cases, inl, inr,
}
use edukod_companion.App.Loop.{
  Event, save_status, announce, unavailable, wait, Round, Vars, jitter, after_dial, on_dial, round,
  continue, run,
}
use edukod_companion.App.Loop.Backoff.{
  IsBackoff, RandomFits, WaitInRange, jitter_in_range, round-IsBackoff,
}

abbrev pub IsNoWait : Event → Type 0
IsNoWait (wait d) = ⊥
IsNoWait (save_status s) = Unit {0}
IsNoWait announce = Unit {0}
IsNoWait (unavailable m) = Unit {0}

-- Some events, and then one wait in range.
abbrev pub IsChunk : List Event → Type 0
IsChunk events =
    (front : List Event) × (d : ℕ) × (events ≡ front ++ wait d ∷ [])
    × All IsNoWait front
    × WaitInRange (wait d)

-- One chunk for each round.
abbrev pub IsPaced : List Round → List Event → Type 0
IsPaced [] events = events ≡ []
IsPaced (r ∷ rs) events =
    (chunk : List Event) × (later : List Event) × (events ≡ chunk ++ later)
    × IsChunk chunk
    × IsPaced rs later

after_dial-IsChunk :
    (v w : Vars) (r : Round) (e : Option Bytes)
    → IsBackoff v.backoff
    → RandomFits r.random
    → (after_dial v r e).0 ≡ some w
    → IsChunk (after_dial v r e).1
unfolding after_dial
after_dial-IsChunk v w r e h fits goes = elim (Bool-cases r.canceled_after) [
  | inl ended ↦ absurd (returned (simp ended at goes))
  | inr on ↦ elim (Bool-cases r.canceled_waiting) [
    | inl ended ↦ absurd (returned (simp (on, ended) at goes))
    | inr off ↦
        simp (on, off)
          (
            _ ∷ _ ∷ [],
            jitter v.backoff r.random,
            refl,
            (tt, (tt, tt)),
            jitter_in_range v.backoff r.random h fits,
          )
  ]
]
  where
    returned : ◌≡◌ {A = Option Vars} none (some w) → ⊥
    returned k = cc

on_dial-IsChunk :
    (v w : Vars) (r : Round) (d : Result Bytes ℕ)
    → IsBackoff v.backoff
    → RandomFits r.random
    → (on_dial v r d).0 ≡ some w
    → IsChunk (on_dial v r d).1
unfolding on_dial
on_dial-IsChunk v w r (err x) h fits goes = after_dial-IsChunk v w r (some x) h fits goes
on_dial-IsChunk v w r (ok now) h fits goes =
    let (front, d, same, quiet, in_range) =
      after_dial-IsChunk (record v { last_connected_at = some now }) w r r.served h fits goes in
    let s : Event =
      save_status (record { connected = true; last_connected_at = some now; last_error = [] }) in
    (
      s ∷ announce ∷ front,
      d,
      ap (λ (l : List Event). s ∷ announce ∷ l) same,
      (tt, (tt, quiet)),
      in_range,
    )

round-IsChunk :
    (v w : Vars) (r : Round)
    → IsBackoff v.backoff
    → RandomFits r.random
    → (round v r).0 ≡ some w
    → IsChunk (round v r).1
unfolding round
round-IsChunk v w r h fits goes = elim (Bool-cases r.canceled_at_top) [
  | inl ended ↦ absurd (returned (simp ended at goes))
  | inr on ↦ simp on (on_dial-IsChunk v w r r.dial h fits (simp on at goes))
]
  where
    returned : ◌≡◌ {A = Option Vars} none (some w) → ⊥
    returned k = cc

continue-IsPaced :
    (a : Option Vars × List Event) (rest : Vars → Option Vars × List Event) (r : Round)
    (rs : List Round) (w : Vars)
    → (continue a rest).0 ≡ some w
    → ((u : Vars) → a.0 ≡ some u → IsChunk a.1)
    → ((u : Vars) → a.0 ≡ some u → (rest u).0 ≡ some w → IsPaced rs (rest u).1)
    → IsPaced (r ∷ rs) (continue a rest).1
unfolding continue
continue-IsPaced (none, events) rest r rs w goes chunk more = absurd (returned goes)
  where
    returned : ◌≡◌ {A = Option Vars} none (some w) → ⊥
    returned k = cc
continue-IsPaced (some u, events) rest r rs w goes chunk more =
    (events, (rest u).1, refl, chunk u refl, more u refl goes)

-- While the loop goes on, its events are those of its rounds one after the other, and each round,
-- whatever happens in it, ends with its one wait, of three quarters of a second to 37.5 seconds: no
-- attempt follows another without it. The backoff at the start is in range.
pub run-IsPaced :
    (v w : Vars) (rs : List Round)
    → IsBackoff v.backoff
    → All (λ r. RandomFits r.random) rs
    → (run v rs).0 ≡ some w
    → IsPaced rs (run v rs).1
unfolding run
run-IsPaced v w [] h fits goes = refl
run-IsPaced v w (r ∷ rs) h fits goes =
    continue-IsPaced (round v r) (λ u. run u rs) r rs w goes (λ u k. round-IsChunk v u r h fits.0 k)
      (λ u k more. run-IsPaced u w rs (round-IsBackoff v r h k) fits.1 more)
