-- ===== src/Config/SecretTool.antt =====
-- store.go: `SecretToolKeyring`, the keyring that asks the program secret-tool.
use edukod_companion.Base.{
  ◌≡◌, ◌≢◌, refl, ap, ◌∙◌, Bool, true, false, Option, none, some, List, [], ◌∷◌, ◌++◌, Bytes, codes,
  bytes_eq, bytes_eq_iff, trim_space, if◌then◌else◌, Result, ok, err, arith,
}
use edukod_companion.Config.Store.{Keyring}
use edukod_companion.Config.Store.RoundTrip.{IsFaithful}

-- What a run of a program comes to: `command.Run` failed or not, and what it has written.
pub record Run : Type 0 where
  pub failed : Bool
  pub stdout : Bytes
  pub stderr : Bytes

-- `exec.LookPath`, and a run of a program with its arguments and its input.
pub record Programs (K : Type 0) : Type 0 where
  pub look_path : Bytes → Option Bytes
  pub run : Bytes → List Bytes → Bytes → K → Run × K

unfoldable pub secret_tool : Bytes
secret_tool = codes "secret-tool"

unfoldable pub store_arguments : Bytes → List Bytes
store_arguments device =
    codes "store"
    ∷ codes "--label=EduKod Local Companion"
    ∷ codes "service"
    ∷ codes "edukod-companion"
    ∷ codes "device"
    ∷ device
    ∷ []

unfoldable pub lookup_arguments : Bytes → List Bytes
lookup_arguments device =
    codes "lookup" ∷ codes "service" ∷ codes "edukod-companion" ∷ codes "device" ∷ device ∷ []

unfoldable pub clear_arguments : Bytes → List Bytes
clear_arguments device =
    codes "clear" ∷ codes "service" ∷ codes "edukod-companion" ∷ codes "device" ∷ device ∷ []

module _ {K : Type 0} (programs : Programs K) (path : Bytes) where
  -- `none`: the program is not installed.
  executable : Option Bytes
  executable = if bytes_eq path [] then programs.look_path secret_tool else some path

  after_store : Run × K → Option Bytes × K
  after_store (run, secrets) = (
    if run.failed then some (codes "secret-tool store failed: " ++ trim_space run.stderr) else none,
    secrets,
  )

  store_by : Option Bytes → Bytes → Bytes → K → Option Bytes × K
  unfolding after_store
  store_by none device token secrets = (some (codes "secret-tool is not installed"), secrets)
  store_by (some program) device token secrets =
      after_store (programs.run program (store_arguments device) token secrets)

  found_token : Bytes → Result Bytes Bytes
  found_token token =
      if bytes_eq token []
      then err (codes "device credential is missing from the keyring")
      else ok token

  after_lookup : Run → Result Bytes Bytes
  unfolding found_token
  after_lookup run =
      if run.failed
      then err (codes "secret-tool lookup failed: " ++ trim_space run.stderr)
      else found_token (trim_space run.stdout)

  load_by : Option Bytes → Bytes → K → Result Bytes Bytes
  unfolding after_lookup
  load_by none device secrets = err (codes "secret-tool is not installed")
  load_by (some program) device secrets =
      after_lookup (programs.run program (lookup_arguments device) [] secrets).0

  delete_by : Option Bytes → Bytes → K → K
  delete_by none device secrets = secrets
  delete_by (some program) device secrets =
      (programs.run program (clear_arguments device) [] secrets).1

  -- A lookup is taken to leave the tool's store as it is.
  unfoldable pub secret_tool_keyring : Keyring K
  unfolding executable store_by load_by delete_by
  secret_tool_keyring = record {
    store = store_by executable;
    load = load_by executable;
    delete = delete_by executable;
  }

  -- What secret-tool documents, of the program that is found: after a run `store LABEL ATTRIBUTES`
  -- that has stored a secret, a run `lookup ATTRIBUTES` ends without failure and writes the secret,
  -- up to space around it. The attributes may be any.
  unfoldable pub IsDocumented : Type 0
  unfolding executable
  IsDocumented =
      (program : Bytes)
      → executable ≡ some program
      → (label : Bytes) (attributes : List Bytes) (secret : Bytes) (before : K)
      → (programs.run program (codes "store" ∷ label ∷ attributes) secret before).0.failed ≡ false
      → let after = (programs.run program (codes "store" ∷ label ∷ attributes) secret before).1 in
        let answer = (programs.run program (codes "lookup" ∷ attributes) [] after).0 in
        (answer.failed ≡ false) × (trim_space answer.stdout ≡ trim_space secret)

  loaded_after_lookup :
      (run : Run) (token : Bytes)
      → run.failed ≡ false
      → trim_space run.stdout ≡ token
      → token ≢ []
      → after_lookup run ≡ ok token
  unfolding after_lookup
  loaded_after_lookup run token done' out nonempty =
      rw (done', out) (ground (arith, bytes_eq_iff token []))

  stored_run :
      (answer : Run × K) (after : K)
      → after_store answer ≡ (none, after)
      → (answer.0.failed ≡ false) × (answer.1 ≡ after)
  unfolding after_store
  stored_run (run, secrets) after h = (not_failed run.failed (ap (λ p. p.0) h), ap (λ p. p.1) h)
    where
      not_failed :
          (b : Bool)
          → (if b then some (codes "secret-tool store failed: " ++ trim_space run.stderr) else none)
            ≡ none
          → b ≡ false
      not_failed true e = cc
      not_failed false e = refl

  by_program :
      (found : Option Bytes) (device token : Bytes) (before after : K)
      → IsDocumented
      → executable ≡ found
      → trim_space token ≡ token
      → token ≢ []
      → store_by found device token before ≡ (none, after)
      → load_by found device after ≡ ok token
  unfolding store_by load_by store_arguments lookup_arguments executable IsDocumented
  by_program none device token before after law at trimmed nonempty h =
      absurd (no_store (ap (λ p. p.0) h))
    where
      no_store : ◌≡◌ {A = Option Bytes} (some (codes "secret-tool is not installed")) none → ⊥
      no_store e = cc
  by_program (some program) device token before after law at trimmed nonempty h =
      let (worked, same) =
        stored_run (programs.run program (store_arguments device) token before) after h in
      let (done', out) = law program at _ _ token before worked in
      rw (← same) (loaded_after_lookup _ token done' (out ∙ trimmed) nonempty)

  same_keyring : (k l : Keyring K) → ◌≡◌ {A = Option (Keyring K)} (some k) (some l) → k ≡ l
  same_keyring k l e = cc

  -- `SecretToolKeyring` keeps what the interface `Keyring` promises to the store, wherever the
  -- program is looked up, if the program that is found does what secret-tool documents: a stored
  -- token is loaded again, since it is looked up under the attributes with which it was stored.
  pub secret_tool-IsFaithful : IsDocumented → IsFaithful (some secret_tool_keyring)
  unfolding secret_tool_keyring
  secret_tool-IsFaithful law keyring device token before after e trimmed nonempty h =
      with_keyring keyring (same_keyring secret_tool_keyring keyring e) h
    where
      with_keyring :
          (k : Keyring K)
          → secret_tool_keyring ≡ k
          → k.store device token before ≡ (none, after)
          → k.load device after ≡ ok token
      with_keyring k same stored = rw (← same) (
          by_program executable device token before after law refl trimmed nonempty
            (rw (← same) at stored))
