-- ===== src/Relay/Machine/Runs.antt =====
-- Steps of `Serve` one after the other, from any state.
use edukod_companion.Base.{Unicode}
use edukod_companion.Protocol.Validate.{Json}
use edukod_companion.Relay.Options.{Settings}
use edukod_companion.Relay.Machine.{State, Step}

module _ (json : Json) (unicode : Unicode) (settings : Settings) where
  pub data Runs : State → State → Type 0 where
    here : {s : State} → Runs s s
    onward : {s t u : State} → Step json unicode settings s t → Runs t u → Runs s u
