-- ===== src/Gateway/Identity.antt =====
-- client.go: `validDeviceID` and `containsControl`.
use edukod_companion.Base.{
  ℕ, ◌+◌, ◌≤◌, ◌≡◌, ◌↔◌, refl, Bool, true, false, ◌&&◌, ◌||◌, [], ◌∷◌, arith, Bytes, length, all,
  leb, ltb, ◌==◌, if◌then◌else◌,
}
use edukod_companion.Protocol.Id.{is_id_char, matches_id}

-- A control character is one byte under 0x20, the byte 0x7f, or 0xc2 with a byte up to 0x9f.
unfoldable pub contains_control : Bytes → Bool
contains_control [] = false
contains_control (b ∷ []) = ltb b 0x20 || b == 0x7f
contains_control (b ∷ c ∷ s) =
    ltb b 0x20 || b == 0x7f || (b == 0xc2 && leb 0x80 c && leb c 0x9f) || contains_control (c ∷ s)

abbrev is_device_char : ℕ → ℕ → Bool
is_device_char index c =
    leb b'a' c && leb c b'z'
    || leb b'A' c && leb c b'Z'
    || leb b'0' c && leb c b'9'
    || ltb 0 index && (c == b'.' || c == b'_' || c == b':' || c == b'-')

-- The loop of `validDeviceID`. A byte of a character that is not ASCII fails as the character does.
device_chars : ℕ → Bytes → Bool
device_chars index [] = true
device_chars index (c ∷ s) = is_device_char index c && device_chars (index + 1) s

unfoldable pub valid_device_id : Bytes → Bool
unfolding device_chars
valid_device_id s = if ltb (length s) 8 || ltb 128 (length s) then false else device_chars 0 s

device_chars-all : (index : ℕ) (s : Bytes) → 1 ≤ index → device_chars index s ≡ all is_id_char s
unfolding device_chars
device_chars-all index [] h = refl
device_chars-all index (c ∷ s) h = ground (arith, device_chars-all (index + 1) s (omega arith))

-- A device id is a request id of at least eight bytes: the two patterns are one.
pub valid_device_id_iff :
    (s : Bytes) → (valid_device_id s ≡ true) ↔ ((matches_id s ≡ true) × (8 ≤ length s))
unfolding valid_device_id matches_id device_chars
valid_device_id_iff [] = ((λ h. cc), λ h. cc)
valid_device_id_iff (c ∷ s) = (
  (λ h. ground (arith, device_chars-all 1 s (omega arith))),
  λ h. ground (arith, device_chars-all 1 s (omega arith)),
)
