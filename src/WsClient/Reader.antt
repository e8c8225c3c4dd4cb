-- ===== src/WsClient/Reader.antt =====
-- wsclient.go: errors, and reading from the connection's buffered reader. What the peer has sent
-- is a list of bytes, whose end is the end of the stream.
use edukod_companion.Base.{
  ℕ, zero, suc, ◌+◌, ◌*◌, ◌≤◌, ◌≡◌, [], ◌∷◌, ◌++◌, arith, Bytes, length, take, drop, leb,
  if◌then◌else◌, take-length_append, drop-length_append, length-drop, length-append, length-take,
  ok, err, Fallible,
}

pub data WsError : Type 0 where
  eof unexpected_eof : WsError
  extended_frame masked_frame frame_too_large bad_control : WsError
  message_too_large : ℕ → WsError
  unexpected_continuation not_text unfinished_message : WsError
  unsupported_opcode : ℕ → WsError
  control_too_large no_entropy use_of_closed write_failed : WsError
  not_encodable : Bytes → WsError
  out_of_fuel : WsError  -- no Go value: the model's loop stopped early

-- An action that takes bytes from the front of the stream, and may fail.
abbrev pub Reader : Type 0 → Type 0
Reader = Fallible Bytes WsError

-- `io.ReadFull` into a buffer of `n` bytes.
unfoldable pub read_full : ℕ → Reader Bytes
read_full n s =
    if leb n (length s)
    then (ok (take n s), drop n s)
    else (err (if leb (length s) 0 then eof else unexpected_eof), [])

pub read_full-append : (xs ys : Bytes) → read_full (length xs) (xs ++ ys) ≡ (ok xs, ys)
unfolding read_full
read_full-append xs ys =
    ground (arith, length-append xs ys, take-length_append xs ys, drop-length_append xs ys)

pub read_full-shrinks : (n : ℕ) (s : Bytes) → length (read_full n s).1 ≤ length s
unfolding read_full
read_full-shrinks n s = ground (arith, length-drop n s)

-- `header[i]`, for an index in range.
abbrev pub byte_at : Bytes → ℕ → ℕ
byte_at [] i = 0
byte_at (b ∷ bs) zero = b
byte_at (b ∷ bs) (suc i) = byte_at bs i

-- `binary.BigEndian.Uint16` and `Uint64`, by the number of bytes given.
unfoldable pub be_loop : ℕ → Bytes → ℕ
be_loop acc [] = acc
be_loop acc (b ∷ bs) = be_loop (acc * 256 + b) bs

abbrev pub big_endian : Bytes → ℕ
big_endian = be_loop 0

pub read_full_ok :
    (n : ℕ) (s x : Bytes)
    → (read_full n s).0 ≡ ok x
    → (length x ≡ n) × (length (read_full n s).1 + n ≡ length s)
unfolding read_full
read_full_ok n s x h = ground (arith, length-drop n s, length-take n s)
