-- ===== src/App/Start/Kept.antt =====
-- `run`: what it never changes.
use edukod_companion.Base.{◌≡◌, refl, ap, ◌∙◌, Option, none, some, List, [], ◌∷◌, Bytes}
use edukod_companion.Base.Url.{Url}
use edukod_companion.Base.Triples.{Post, Post-weaken, Post-any, continue-Post}
use edukod_companion.Config.FileSystem.{config_file}
use edukod_companion.Config.Store.{Pairing}
use edukod_companion.Config.Store.Status.{SamePairing, save_status-SamePairing}
use edukod_companion.App.Loop
use edukod_companion.App.Loop.{Round, Vars, Event, announce, unavailable, wait, initial}
use edukod_companion.App.Machine.{Env, Machine, default_store}
use edukod_companion.App.Machine.Rules.{Untouched}
use edukod_companion.App.Start.{start, runtime_status, perform, perform_all, after_loop, run}
use edukod_companion.App.Start.Ready.{IsReady, start-Post}

module _ {K : Type 0} (env : Env K) where
  abbrev pub KeepsPairing : Machine K → Machine K → Type 0
  KeepsPairing m v = SamePairing m.world v.world × (v.requests ≡ m.requests)

  join : (m v x : Machine K) → KeepsPairing m v → KeepsPairing v x → KeepsPairing m x
  join m v x h k = ((k.0.0 ∙ h.0.0, k.0.1 ∙ h.0.1), k.1 ∙ h.1)

  perform-KeepsPairing :
      (state : Pairing) (event : Event) (m : Machine K) → KeepsPairing m (perform env state event m)
  unfolding perform
  perform-KeepsPairing state (Loop.save_status status) m = (
    save_status-SamePairing env.store_json (default_store env) (runtime_status env state status)
        env.now m.world,
    refl,
  )
  perform-KeepsPairing state announce m = ((refl, refl), refl)
  perform-KeepsPairing state (unavailable text) m = ((refl, refl), refl)
  perform-KeepsPairing state (wait duration) m = ((refl, refl), refl)

  perform_all-KeepsPairing :
      (state : Pairing) (events : List Event) (m : Machine K)
      → KeepsPairing m (perform_all env state events m)
  unfolding perform_all
  perform_all-KeepsPairing state [] m = ((refl, refl), refl)
  perform_all-KeepsPairing state (event ∷ events) m =
      join m (perform env state event m) (perform_all env state events (perform env state event m))
        (perform-KeepsPairing state event m)
        (perform_all-KeepsPairing state events (perform env state event m))

  after_loop-Post :
      (state : Pairing) (found : Option Vars × List Event) (m v : Machine K)
      → KeepsPairing m v
      → Post (λ b. KeepsPairing m) (KeepsPairing m) (after_loop env state found v)
  unfolding after_loop
  after_loop-Post state (none, events) m v h =
      join m v (perform_all env state events v) h (perform_all-KeepsPairing state events v)
  after_loop-Post state (some vars, events) m v h =
      join m v (perform_all env state events v) h (perform_all-KeepsPairing state events v)

  -- Whatever happens in the loop of `run`, and however long it goes on, the pairing's file and the
  -- keyring are as they were, and nothing was sent to the school's device API.
  pub run-KeepsPairing :
      (arguments : List Bytes) (rounds : List Round) (m : Machine K)
      → KeepsPairing m (run env arguments rounds m).1
  unfolding run
  run-KeepsPairing arguments rounds m = Post-any (KeepsPairing m) (run env arguments rounds m) (
      continue-Post (λ started. KeepsPairing m) (λ b. KeepsPairing m) (KeepsPairing m)
        (start env arguments m) _
        (Post-weaken
          (λ (found : (Pairing × Bytes) × Url) x. IsReady env m found.0.0 found.1 × Untouched m x)
          (λ started. KeepsPairing m) (Untouched m) (KeepsPairing m) (start env arguments m)
          (start-Post env arguments m) (λ found x p. Untouched-KeepsPairing x p.1)
          (λ x p. Untouched-KeepsPairing x p))
        (λ started v h. after_loop-Post started.0.0 (Loop.run initial rounds) m v h))
    where
      Untouched-KeepsPairing : (x : Machine K) → Untouched m x → KeepsPairing m x
      Untouched-KeepsPairing x p = ((ap (λ g. g config_file) p.0.0, p.0.1), p.1)
