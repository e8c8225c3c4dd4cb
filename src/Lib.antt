-- ===== src/Lib.antt =====
-- A model of the EduKod local companion, the program that connects a workstation's local model API
-- to a school's gateway, and the theorems that make it correct.
--
-- The companion dials the gateway over a WebSocket (internal/wsclient), announces itself, and relays
-- the gateway's requests to the local API (internal/relay), in the messages of internal/protocol.
-- A device is paired once, by an exchange over https (internal/gateway).
-- The command `run` (internal/app) keeps the connection up and reports on it in a status file,
-- beside the pairing that internal/config keeps.
--
-- The files and the code that they are about:
-- - Base: shared names. Base/Tests has Boolean tests and the conditional, Base/Lists lists under
--   native lengths, Base/Text Go strings as lists of bytes with the functions of package strings
--   that the code calls, Base/Bits masks on bytes, Base/Decimal `%d`, Base/Outcome (value, error),
--   Base/Actions the monad of actions that may fail, Base/Triples the rules by which theorems follow
--   such actions through their steps, Base/Url the parts of a URL and the functions of net/url.
-- - Protocol, internal/protocol/protocol.go: Protocol/Id `requestIDPattern`, Protocol/Message the
--   messages with `NewHello` and `ErrorResponse`, Protocol/Validate `ValidateRequest` and
--   `ValidateCancel`, and Protocol/Validate/Allowed what the protocol allows, as a predicate.
-- - WsClient, internal/wsclient/wsclient.go: WsClient/Reader reads from the stream, WsClient/Frame
--   `readFrame` and the bytes of `writeFrame`, WsClient/Conn `ReadMessage`, `WriteJSON`,
--   `WritePing`, `writeFrame` and `Close`. A connection is a record: the bytes still to be read, the
--   bytes sent, the random bytes to come, the limit, and three marks. Each operation takes the
--   record and returns the next one with its result. WsClient/Frame/Client and
--   WsClient/Frame/RoundTrip say independently what a server reads and sends. WsClient/Handshake has
--   `expectedAccept` and `headerHasToken`, WsClient/Dial `Dialer` and `Dial`: the network is a record
--   of what its calls come to, and what `Dial` does is a list of events.
-- - Relay, internal/relay/relay.go: Relay/Options the options and the opening of `Serve`,
--   Relay/Execute `execute`, Relay/Machine the goroutines of `Serve`. The reader's handling of one
--   message is a function (`handle`), and the goroutines are a relation (`Step`) on a state with
--   the map `cancellations`, the channel `jobs`, the place of the reader and of each worker. A step
--   is what the code does between two points at which another goroutine can act: the duplicate test
--   and the entry into the map are two steps, and so are the deletion of an id and the write after
--   it, of a worker or of the reader that has no room for a job.
--   Relay/Machine/Ledger is the abstract view of the relay: which requests are open, as a count that
--   forgets where they stand, and which are closed, and Relay/Machine/Ledger/Moves follows the steps
--   in it. Relay/Machine/Named has what the reader sends itself and the ids of the responses,
--   Relay/Machine/Runs the steps from one state on, and Relay/Machine/Ending the last `select` of
--   `Serve`.
-- - App, internal/app/app.go: App/SafeError `safeError`, App/Loop the loop of `run` with `jitter`,
--   App/Loop/Pace its waits and App/Loop/Report what it gives to `SaveStatus`.
--   What a dial and a relay come to, clocks, signals and random bytes are arguments. The commands
--   change the record `Machine` of App/Machine: the store's world, the requests that went to the
--   school, and the lines printed. App/Pair has `pair`, App/Unpair `unpair`, App/Inspect `status`,
--   `doctor` and `models`, App/Start `run` before, in and after its loop, and App/Dispatch `Run`,
--   `usage` and cmd/edukod-companion/main.go. They are composed of the operations of Config, Gateway
--   and LocalApi, whose theorems theirs rest on.
-- - Config, internal/config/store.go: Config/FileSystem the calls of the operating system on a state,
--   the record `World`, and Config/Store the operations of `Store` with `atomicWrite`. Each call may
--   fail: a list in the world says which do. The encodings and the keyring are parameters, the
--   records `StoreJson` and `Keyring`. Config/SecretTool is the keyring `SecretToolKeyring`, over
--   the runs of the program secret-tool, and Config/Path has `DefaultDirectory` and `NewStore`.
-- - Gateway, internal/gateway/client.go: Gateway/Identity `validDeviceID` and `containsControl`,
--   Gateway/Client the checks of URLs, `Enroll` and `Revoke`, on the list of the requests sent. URLs,
--   encodings and the answers of the server are the parameter `Network`.
-- - LocalApi, internal/localapi/client.go: LocalApi/Loopback `ensureLoopbackHost` and
--   `loopbackDialer`, LocalApi/Address `ValidateBaseURL` and the checks of `New`, LocalApi/Forward
--   `Forward` and `Models`. Its errors are those that Relay/Execute classifies.
--
-- Each of these has modules of tests with runs on concrete inputs.
--
-- Numbers: Go's int and int64 are natural numbers where the code has tested that they are not
-- negative, and Protocol/Message/ℤ where it has not. Lengths are those of data in memory, and the
-- 64-bit length of a frame is compared with 2^63 - 1 as in the code. Times are nanoseconds.
--
-- Loops: `ReadMessage` runs on as many rounds as there are bytes to read and one more. Each round
-- takes two bytes at least, or returns, so that this is enough.
-- `decimal` has one round for each unit of the number, and one more. `TrimSpace` has one for each
-- byte.
--
-- Parameters: JSON decoding (the record `Json`), the case mappings of package unicode on texts that
-- are not all ASCII (`Unicode`), the forwarder's outcome, what the text and the chain of a Go error
-- say (`GoError`), the store's encodings and keyring (`StoreJson`, `Keyring`), the runs of
-- secret-tool (`Programs`), net/url (`Urls`), HTTP exchanges (`Gateway/Client/Network`, and the
-- arguments of `forward`), TLS, SHA-1 and the handshake's exchange (`WsClient/Dial/Network`), name
-- resolution, the splitting of addresses and dialing, and for the commands the parsing of flags, package filepath, the texts of
-- errors and the JSON that is printed (`Env`).
--
-- Not modelled: the time limits, on the handshake, on single reads and writes and on programs that
-- run; which directory a path is, since the world has the one of the store; and the settings of the
-- HTTP clients.
pub mod Base
pub mod Protocol
pub mod WsClient
pub mod Relay
pub mod App
pub mod Config
pub mod Gateway
pub mod LocalApi
