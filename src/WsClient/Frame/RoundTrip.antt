-- ===== src/WsClient/Frame/RoundTrip.antt =====
-- `readFrame` reads back each frame that a server may send.
use Prim.Native.Nat.{bit_or}
use edukod_companion.Base.{
  continue, ℕ, ◌≤◌, ◌<◌, ◌≡◌, ◌∙◌, Bool, true, ◌⊎◌, [], ◌∷◌, ◌++◌, arith, Bytes, length, ok,
  append_assoc,
}
use edukod_companion.WsClient.Frame.Lengths.{
  length_tail, length_code-lt, length_field_split, read_length-length_tail,
}
use edukod_companion.WsClient.Reader.{read_full-append}
use edukod_companion.WsClient.Frame.{
  Frame, max_int, read_length, read_body, read_checked, read_frame, length_field,
}
use edukod_companion.WsClient.Frame.Masks.{
  first_byte, first_byte-reserved, first_byte-opcode, first_byte-final, plain-length, plain-clear,
}

-- An unmasked frame, as a server sends it.
unfoldable pub server_frame : Frame → Bytes
server_frame f = first_byte f.final f.opcode ∷ length_field 0 (length f.payload) ++ f.payload

-- The frames that a peer may send to a client that takes up to `max_message` bytes: an opcode of
-- four bits, and no fragmented or long control frame.
pub record IsSendable (max_message : ℕ) (f : Frame) : Type 0 where
  pub opcode : f.opcode < 16
  pub fits : length f.payload ≤ max_message
  pub addressable : length f.payload ≤ max_int
  pub control : (f.opcode < 8) ⊎ ((f.final ≡ true) × (length f.payload ≤ 125))

-- The two header bytes, read.
header_step :
    (max_message : ℕ) (final : Bool) (op n : ℕ) (s : Bytes)
    → op < 16
    → n < 128
    → read_frame max_message (first_byte final op ∷ bit_or 0 n ∷ s)
      ≡ continue (read_length n s) (λ size. read_body max_message final op size)
unfolding read_frame read_checked
header_step max_message final op n s ho hn =
    rw (read_full-append (first_byte final op ∷ bit_or 0 n ∷ []) s) (
      rw (first_byte-reserved final op ho) (
        rw (plain-clear n hn) (
          rw (plain-length n hn, first_byte-opcode final op ho)
            (simp (first_byte-final final op ho)))))

read_body_lem :
    (max_message : ℕ) (f : Frame) (rest : Bytes)
    → IsSendable max_message f
    → read_body max_message f.final f.opcode (length f.payload) (f.payload ++ rest) ≡ (ok f, rest)
unfolding read_body
read_body_lem max_message f rest h =
    ground (arith, read_full-append f.payload rest, h.control, h.fits)

-- A frame that the peer may send is read back whole, whatever follows it on the stream.
pub read_frame-server_frame :
    (max_message : ℕ) (f : Frame) (rest : Bytes)
    → IsSendable max_message f
    → read_frame max_message (server_frame f ++ rest) ≡ (ok f, rest)
unfolding server_frame
read_frame-server_frame max_message f rest h =
    let n : ℕ = length f.payload in
    rw (length_field_split 0 n, append_assoc (length_tail n) f.payload rest)
      (header_step max_message f.final f.opcode _ _ h.opcode (length_code-lt n)
        ∙ rw (read_length-length_tail n (f.payload ++ rest) h.addressable)
            (read_body_lem max_message f rest h))
