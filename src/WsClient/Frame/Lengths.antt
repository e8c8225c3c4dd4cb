-- ===== src/WsClient/Frame/Lengths.antt =====
-- The three forms of a frame's length field, written and read.
use Prim.Native.Nat.{bit_or}
use edukod_companion.Base.{
  ℕ, ◌≤◌, ◌<◌, ◌≡◌, refl, [], ◌∷◌, ◌++◌, arith, Bytes, leb, ltb, if◌then◌else◌, ok,
}
use edukod_companion.WsClient.Reader.{read_full-append, be_loop, big_endian}
use edukod_companion.WsClient.Frame.{
  max_int, read_length16, read_length64, read_length, put_be16, put_be64, length_field,
}

big_endian-put_be16 : (n : ℕ) → n ≤ 65535 → big_endian (put_be16 n) ≡ n
unfolding be_loop
big_endian-put_be16 n h = omega arith

big_endian-put_be64 : (n : ℕ) → n ≤ max_int → big_endian (put_be64 n) ≡ n
unfolding be_loop
big_endian-put_be64 n h = omega arith

read16 : (n : ℕ) (rest : Bytes) → n ≤ 65535 → read_length16 (put_be16 n ++ rest) ≡ (ok n, rest)
unfolding read_length16
read16 n rest h = rw (read_full-append (put_be16 n) rest, big_endian-put_be16 n h)

read64 : (n : ℕ) (rest : Bytes) → n ≤ max_int → read_length64 (put_be64 n ++ rest) ≡ (ok n, rest)
unfolding read_length64
read64 n rest h =
    rw (read_full-append (put_be64 n) rest) (rw (big_endian-put_be64 n h) (ground arith))

-- The seven bits of the length, and the bytes that extend them.
abbrev pub length_code : ℕ → ℕ
length_code n = if ltb n 126 then n else if leb n 65535 then 126 else 127

abbrev pub length_tail : ℕ → Bytes
length_tail n = if ltb n 126 then [] else if leb n 65535 then put_be16 n else put_be64 n

pub length_code-lt : (n : ℕ) → length_code n < 128
length_code-lt n = ground arith

pub length_field_split :
    (flag n : ℕ) → length_field flag n ≡ bit_or flag (length_code n) ∷ length_tail n
unfolding length_field
length_field_split flag n = ground arith

read_length-small : (n : ℕ) (s : Bytes) → n < 126 → read_length n s ≡ (ok n, s)
unfolding read_length
read_length-small n s h = ground arith

read_length-medium : (s : Bytes) → read_length 126 s ≡ read_length16 s
unfolding read_length
read_length-medium s = refl

read_length-large : (s : Bytes) → read_length 127 s ≡ read_length64 s
unfolding read_length
read_length-large s = refl

-- The length that a header states is read back.
pub read_length-length_tail :
    (n : ℕ) (s : Bytes) → n ≤ max_int → read_length (length_code n) (length_tail n ++ s) ≡ (ok n, s)
read_length-length_tail n s h = ground (
  arith,
  read_length-small n s,
  read_length-medium (put_be16 n ++ s),
  read_length-large (put_be64 n ++ s),
  read16 n s,
  read64 n s h,
)
