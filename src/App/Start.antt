-- ===== src/App/Start.antt =====
-- app.go, `run`: the checks before the loop, and what the loop's events do to the store and the
-- output.
pub mod Ready
pub mod Kept
pub mod Resumed
use edukod_companion.Base.{
  ℕ, Bool, true, false, Option, none, some, List, [], ◌∷◌, ◌++◌, Bytes, codes, ok, err, pure, ◌>>=◌,
  ◌>>◌,
}
use edukod_companion.Base.Url.{Url}
use edukod_companion.Config.Store.{Pairing, RuntimeStatus, save_status}
use edukod_companion.Gateway.Client.{validate_school_origin, validate_web_socket_url}
use edukod_companion.App.Machine.{
  bad_address, in_store, stored_origin, stored_socket, Env, Machine, Command, on_gateway,
  from_result, default_store,
}
use edukod_companion.App.Inspect.{load_pairing, local_base}
use edukod_companion.App.Loop
use edukod_companion.App.Loop.{Round, Vars, Status, Event, announce, unavailable, wait, initial}

module _ {K : Type 0} (env : Env K) where
  -- The checks of the gateway's address and of the local API's.
  unfoldable pub check_stored : Pairing → Url → Command K Url
  check_stored state origin = do
    socket ←
        on_gateway stored_socket (validate_web_socket_url env.network state.web_socket_url origin)
    from_result bad_address (local_base env state)

  -- What the loop needs: the pairing, its credential, and the local API's base.
  unfoldable pub start : List Bytes → Command K ((Pairing × Bytes) × Url)
  start arguments = do
    loaded ← load_pairing env in_store arguments
    origin ← on_gateway stored_origin (validate_school_origin env.network loaded.0.school_origin)
    base ← check_stored loaded.0 origin
    pure (loaded, base)

  -- The status of the loop, with the device of the pairing. `SaveStatus` sets the time of the event.
  abbrev pub runtime_status : Pairing → Status → RuntimeStatus
  runtime_status state status = record {
    connected = status.connected;
    device_id = state.device_id;
    last_connected_at = status.last_connected_at;
    last_event_at = 0;
    last_error = status.last_error;
  }

  -- A status that cannot be saved is passed over.
  unfoldable pub perform : Pairing → Event → Machine K → Machine K
  perform state (Loop.save_status status) m = record m {
    world =
        (save_status env.store_json (default_store env) (runtime_status state status) env.now
          m.world).1;
  }
  perform state announce m = record m {
    stdout =
        m.stdout
        ++ (codes "Connected to "
            ++ state.school_origin
            ++ codes " as "
            ++ state.device_name
            ++ codes ".")
          ∷ [];
  }
  perform state (unavailable text) m = record m {
    stderr =
        m.stderr
        ++ (codes "Companion connection unavailable: " ++ text ++ codes "; reconnecting.") ∷ [];
  }
  perform state (wait duration) m = m

  unfoldable pub perform_all : Pairing → List Event → Machine K → Machine K
  unfolding perform
  perform_all state [] m = m
  perform_all state (event ∷ events) m = perform_all state events (perform state event m)

  after_loop : Pairing → Option Vars × List Event → Command K Bool
  unfolding perform_all
  after_loop state (none, events) m = (ok true, perform_all state events m)
  after_loop state (some v, events) m = (ok false, perform_all state events m)

  -- Over the first rounds of the loop: has it returned?
  unfoldable pub run : List Bytes → List Round → Command K Bool
  unfolding after_loop
  run arguments rounds = do
    started ← start arguments
    after_loop started.0.0 (Loop.run initial rounds)
