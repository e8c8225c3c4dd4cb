-- ===== src/WsClient/Frame.antt =====
-- wsclient.go: `readFrame`, and the bytes that `writeFrame` puts on the wire.
pub mod Masks
pub mod Lengths
pub mod RoundTrip
pub mod Client
pub mod Bounds
use Prim.Native.Nat.{bit_and, bit_or, bit_xor}
use edukod_companion.Base.{
  pure, ◌>>=◌, ◌>>◌, fail_if, ℕ, zero, suc, ◌+◌, ◌-◌, ◌*◌, ◌/◌, ◌%◌, ◌^◌, ◌≤◌, ◌<◌, ◌≡◌, refl, Bool,
  true, false, not, ◌&&◌, ◌||◌, List, [], ◌∷◌, ◌++◌, arith, Bytes, length, leb, ltb, ◌==◌,
  if◌then◌else◌, Result, ok, err,
}
use edukod_companion.WsClient.Reader.{
  WsError, extended_frame, masked_frame, frame_too_large, bad_control, message_too_large, Reader,
  read_full, byte_at, be_loop, big_endian,
}

pub record Frame : Type 0 where
  pub final : Bool
  pub opcode : ℕ
  pub payload : Bytes

-- `^uint(0) >> 1` on the 64-bit systems that the program is built for.
abbrev pub max_int : ℕ
max_int = 2 ^ 63 - 1

read_length16 : Reader ℕ
read_length16 = do extended ← read_full 2; pure (big_endian extended)

read_length64 : Reader ℕ
read_length64 = do
  extended ← read_full 8
  fail_if (ltb max_int (big_endian extended)) frame_too_large
  pure (big_endian extended)

-- The `switch` over the seven bits of the length.
unfoldable pub read_length : ℕ → Reader ℕ
unfolding read_length16 read_length64
read_length n = if n == 126 then read_length16 else if n == 127 then read_length64 else pure n

unfoldable pub read_body : ℕ → Bool → ℕ → ℕ → Reader Frame
read_body max_message final opcode size = do
  fail_if (leb 8 opcode && (not final || ltb 125 size)) bad_control
  fail_if (ltb max_message size) (message_too_large max_message)
  payload ← read_full size
  pure (record { final = final; opcode = opcode; payload = payload })

-- `readFrame` from the test of the reserved bits on.
unfoldable pub read_checked : ℕ → ℕ → ℕ → Reader Frame
read_checked max_message first second = do
  fail_if (not (bit_and first 0x70 == 0)) extended_frame
  fail_if (not (bit_and second 0x80 == 0)) masked_frame
  size ← read_length (bit_and second 0x7f)
  read_body max_message (not (bit_and first 0x80 == 0)) (bit_and first 0x0f) size

-- The length read is at most `max_int`, so Go's `length < 0` never holds.
unfoldable pub read_frame : ℕ → Reader Frame
read_frame max_message = do
  header ← read_full 2
  read_checked max_message (byte_at header 0) (byte_at header 1)

-- `binary.BigEndian.PutUint64`.
abbrev pub put_be64 : ℕ → Bytes
put_be64 n =
    (n / 2 ^ 56 % 256)
    ∷ (n / 2 ^ 48 % 256)
    ∷ (n / 2 ^ 40 % 256)
    ∷ (n / 2 ^ 32 % 256)
    ∷ (n / 2 ^ 24 % 256)
    ∷ (n / 2 ^ 16 % 256)
    ∷ (n / 2 ^ 8 % 256)
    ∷ (n % 256)
    ∷ []

-- `byte(length>>8), byte(length)`.
abbrev pub put_be16 : ℕ → Bytes
put_be16 n = (n / 256 % 256) ∷ (n % 256) ∷ []

-- The length field of a header; `flag` is 0x80 on a masked frame, and 0 on a server's.
unfoldable pub length_field : ℕ → ℕ → Bytes
length_field flag n =
    if ltb n 126
    then bit_or flag (n % 256) ∷ []
    else if leb n 65535
    then bit_or flag 126 ∷ put_be16 n
    else bit_or flag 127 ∷ put_be64 n

-- `payload[index] ^ mask[index%4]`, from `index` on.
unfoldable pub mask_from : Bytes → ℕ → Bytes → Bytes
mask_from mask index [] = []
mask_from mask index (b ∷ bs) = bit_xor b (byte_at mask (index % 4)) ∷ mask_from mask (index + 1) bs

-- The bytes of the one frame that `writeFrame` writes.
unfoldable pub client_frame : ℕ → Bytes → Bytes → Bytes
client_frame opcode mask payload =
    bit_or 0x80 opcode ∷ length_field 0x80 (length payload) ++ mask ++ mask_from mask 0 payload
