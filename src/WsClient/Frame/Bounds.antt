-- ===== src/WsClient/Frame/Bounds.antt =====
-- What `readFrame` takes and returns on any stream, well formed or not.
use edukod_companion.Base.{
  ℕ, ◌+◌, ◌≤◌, ◌≡◌, ◌≢◌, Bool, not, arith, Bytes, length, ◌==◌, ok, err, Result-cases, inl, inr,
}
use Prim.Native.Nat.{bit_and}
use edukod_companion.WsClient.Reader.{
  out_of_fuel, read_full, read_full_ok, read_full-shrinks, byte_at,
}
use edukod_companion.WsClient.Frame.{
  Frame, read_length16, read_length64, read_length, read_body, read_checked, read_frame,
}

read_length16-shrinks : (s : Bytes) → length (read_length16 s).1 ≤ length s
unfolding read_length16
read_length16-shrinks s = ground (arith, read_full-shrinks 2 s)

read_length64-shrinks : (s : Bytes) → length (read_length64 s).1 ≤ length s
unfolding read_length64
read_length64-shrinks s = ground (arith, read_full-shrinks 8 s)

read_length-shrinks : (n : ℕ) (s : Bytes) → length (read_length n s).1 ≤ length s
unfolding read_length
read_length-shrinks n s = ground (arith, read_length16-shrinks s, read_length64-shrinks s)

read_body-shrinks :
    (max_message : ℕ) (final : Bool) (op n : ℕ) (s : Bytes)
    → length (read_body max_message final op n s).1 ≤ length s
unfolding read_body
read_body-shrinks max_message final op n s = ground (arith, read_full-shrinks n s)

read_body_ok :
    (max_message : ℕ) (final : Bool) (op n : ℕ) (s : Bytes) (f : Frame)
    → (read_body max_message final op n s).0 ≡ ok f
    → (length f.payload ≤ max_message) × (f.opcode ≡ op) × (f.final ≡ final)
unfolding read_body
read_body_ok max_message final op n s f h = ground (arith, read_full_ok n s f.payload)

read_checked_ok :
    (max_message first second : ℕ) (s : Bytes) (f : Frame)
    → (read_checked max_message first second s).0 ≡ ok f
    → (length f.payload ≤ max_message)
      × (length (read_checked max_message first second s).1 ≤ length s)
unfolding read_checked
read_checked_ok max_message first second s f h =
    elim (Result-cases (read_length (bit_and second 0x7f) s).0) [
      | inl (n, e) ↦ ground (
        arith,
        read_length-shrinks (bit_and second 0x7f) s,
        read_body-shrinks max_message (not (bit_and first 0x80 == 0)) (bit_and first 0x0f) n
            (read_length (bit_and second 0x7f) s).1,
        read_body_ok max_message (not (bit_and first 0x80 == 0)) (bit_and first 0x0f) n
            (read_length (bit_and second 0x7f) s).1 f,
      )
      | inr (x, e) ↦ ground arith
    ]

-- A frame that is returned fits the limit, and at least its two header bytes were taken.
pub read_frame_ok :
    (max_message : ℕ) (s : Bytes) (f : Frame)
    → (read_frame max_message s).0 ≡ ok f
    → (length f.payload ≤ max_message) × (length (read_frame max_message s).1 + 2 ≤ length s)
unfolding read_frame
read_frame_ok max_message s f h = elim (Result-cases (read_full 2 s).0) [
  | inl (x, e) ↦ ground (
    arith,
    read_full_ok 2 s x,
    read_checked_ok max_message (byte_at x 0) (byte_at x 1) (read_full 2 s).1 f,
  )
  | inr (x, e) ↦ ground arith
]

read_full-ne-fuel : (n : ℕ) (s : Bytes) → (read_full n s).0 ≢ err out_of_fuel
unfolding read_full
read_full-ne-fuel n s = ground arith

read_length-ne-fuel : (n : ℕ) (s : Bytes) → (read_length n s).0 ≢ err out_of_fuel
unfolding read_length read_length16 read_length64
read_length-ne-fuel n s = ground (arith, read_full-ne-fuel 2 s, read_full-ne-fuel 8 s)

read_body-ne-fuel :
    (max_message : ℕ) (final : Bool) (op n : ℕ) (s : Bytes)
    → (read_body max_message final op n s).0 ≢ err out_of_fuel
unfolding read_body
read_body-ne-fuel max_message final op n s = ground (arith, read_full-ne-fuel n s)

read_checked-ne-fuel :
    (max_message first second : ℕ) (s : Bytes)
    → (read_checked max_message first second s).0 ≢ err out_of_fuel
unfolding read_checked
read_checked-ne-fuel max_message first second s =
    elim (Result-cases (read_length (bit_and second 0x7f) s).0) [
      | inl (n, e) ↦ ground (
        arith,
        read_body-ne-fuel max_message (not (bit_and first 0x80 == 0)) (bit_and first 0x0f) n
            (read_length (bit_and second 0x7f) s).1,
      )
      | inr (x, e) ↦ ground (arith, read_length-ne-fuel (bit_and second 0x7f) s)
    ]

-- An error of `readFrame` is one of the program's.
pub read_frame-ne-fuel :
    (max_message : ℕ) (s : Bytes) → (read_frame max_message s).0 ≢ err out_of_fuel
unfolding read_frame
read_frame-ne-fuel max_message s = elim (Result-cases (read_full 2 s).0) [
  | inl (x, e) ↦
      ground (arith, read_checked-ne-fuel max_message (byte_at x 0) (byte_at x 1) (read_full 2 s).1)
  | inr (x, e) ↦ ground (arith, read_full-ne-fuel 2 s)
]
