-- ===== src/WsClient/Conn.antt =====
-- wsclient.go: `Conn`, its messages, and `Close`.
pub mod Bounds
pub mod Reassembly
pub mod Writing
use edukod_companion.Base.{
  ℕ, zero, suc, ◌+◌, ◌-◌, ◌*◌, ◌/◌, ◌%◌, ◌^◌, ◌≤◌, ◌<◌, ◌≡◌, refl, Bool, true, false, not, ◌&&◌,
  ◌||◌, Option, none, some, List, [], ◌∷◌, ◌++◌, arith, Bytes, codes, length, take, drop, leb, ltb,
  ◌==◌, if◌then◌else◌, Result, ok, err,
}
use edukod_companion.WsClient.Reader.{
  WsError, eof, message_too_large, unexpected_continuation, not_text, unfinished_message,
  unsupported_opcode, control_too_large, no_entropy, use_of_closed, write_failed, not_encodable,
  out_of_fuel,
}
use edukod_companion.WsClient.Frame.{Frame, read_frame, client_frame}

-- `input` is what the peer has sent and `output` what it has been sent. `entropy` is what
-- `rand.Read` will give. `closed` is the local end, on which deadlines and writes fail, and on a
-- broken connection writes fail.
pub record Conn : Type 0 where
  pub input : Bytes
  pub output : Bytes
  pub entropy : Bytes
  pub max_message : ℕ
  pub closed : Bool
  pub broken : Bool
  pub close_once : Bool  -- `Close` has run

-- `writeFrame` from the mask on.
send_masked : ℕ → Bytes → Conn → Option WsError × Conn
send_masked opcode payload c =
    let c' = record c { entropy = drop 4 c.entropy } in
    if ltb (length c.entropy) 4
    then (some no_entropy, c')
    else if c.closed
    then (some use_of_closed, c')
    else if c.broken
    then (some write_failed, c')
    else (none, record c' { output = c.output ++ client_frame opcode (take 4 c.entropy) payload })

unfoldable pub write_frame : ℕ → Bytes → Conn → Option WsError × Conn
unfolding send_masked
write_frame opcode payload c =
    if leb 8 opcode && ltb 125 (length payload)
    then (some control_too_large, c)
    else if ltb c.max_message (length payload)
    then (some (message_too_large c.max_message), c)
    else send_masked opcode payload c

-- `WriteJSON`, on what `json.Marshal` gave for the value.
unfoldable pub write_json : Result Bytes Bytes → Conn → Option WsError × Conn
unfolding write_frame
write_json (err text) c = (some (not_encodable text), c)
write_json (ok payload) c = write_frame 0x1 payload c

unfoldable pub write_ping : Conn → Option WsError × Conn
unfolding write_frame
write_ping c = write_frame 0x9 (codes "edukod") c

-- What one round of the loop of `ReadMessage` comes to: a return, or the loop's two variables.
pub data Round : Type 0 where
  done : Result WsError Bytes → Round
  again : ℕ → Bytes → Round

on_continuation : ℕ → Bytes → Frame → Conn → Round × Conn
on_continuation message_opcode message frame c =
    if message_opcode == 0
    then (done (err unexpected_continuation), c)
    else if ltb c.max_message (length message + length frame.payload)
    then (done (err (message_too_large c.max_message)), c)
    else if frame.final
    then if message_opcode == 0x1
      then (done (ok (message ++ frame.payload)), c)
      else (done (err not_text), c)
    else (again message_opcode (message ++ frame.payload), c)

on_text : ℕ → Bytes → Frame → Conn → Round × Conn
on_text message_opcode message frame c =
    if not (message_opcode == 0)
    then (done (err unfinished_message), c)
    else if frame.final
    then (done (ok frame.payload), c)
    else (again frame.opcode (message ++ frame.payload), c)

after_pong : ℕ → Bytes → Option WsError × Conn → Round × Conn
after_pong message_opcode message (none, c) = (again message_opcode message, c)
after_pong message_opcode message (some e, c) = (done (err e), c)

-- The `switch` over the opcode.
unfoldable pub on_frame : ℕ → Bytes → Frame → Conn → Round × Conn
unfolding on_continuation on_text after_pong
on_frame message_opcode message frame c =
    if frame.opcode == 0x0
    then on_continuation message_opcode message frame c
    else if frame.opcode == 0x1
    then on_text message_opcode message frame c
    else if frame.opcode == 0x2
    then (done (err not_text), c)
    else if frame.opcode == 0x8
    then (done (err eof), c)
    else if frame.opcode == 0x9
    then after_pong message_opcode message (write_frame 0xa frame.payload c)
    else if frame.opcode == 0xa
    then (again message_opcode message, c)
    else (done (err (unsupported_opcode frame.opcode)), c)

after_frame : ℕ → Bytes → Result WsError Frame × Bytes → Conn → Round × Conn
unfolding on_frame
after_frame message_opcode message (ok frame, rest) c =
    on_frame message_opcode message frame (record c { input = rest })
after_frame message_opcode message (err e, rest) c = (done (err e), record c { input = rest })

-- One round: the deadline, a frame, and the switch.
unfoldable pub read_round : ℕ → Bytes → Conn → Round × Conn
unfolding after_frame
read_round message_opcode message c =
    if c.closed
    then (done (err use_of_closed), c)
    else after_frame message_opcode message (read_frame c.max_message c.input) c

unfoldable pub read_loop : ℕ → ℕ → Bytes → Conn → Result WsError Bytes × Conn
unfolding read_round
read_loop zero message_opcode message c = (err out_of_fuel, c)
read_loop (suc fuel) message_opcode message c =
    let (round, c') = read_round message_opcode message c in
    elim round [ done r ↦ (r, c') | again opcode text ↦ read_loop fuel opcode text c' ]

-- A round takes at least two bytes, so there are at most as many rounds as bytes, and one more.
unfoldable pub read_message : Conn → Result WsError Bytes × Conn
unfolding read_loop
read_message c = read_loop (suc (length c.input)) 0 [] c

-- `Close`: the first call sends a close frame with status 1000, if it can, and closes.
unfoldable pub close : Conn → Conn
unfolding write_frame
close c =
    if c.close_once
    then c
    else record (write_frame 0x8 (0x03 ∷ 0xe8 ∷ []) c).1 { closed = true; close_once = true }
