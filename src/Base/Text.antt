-- ===== src/Base/Text.antt =====
-- Go strings and byte slices as lists of bytes, and the functions of package strings that the
-- program calls on them.
use Prim.Native.Nat.{ℕ, zero, suc, ◌-◌, ◌+◌}
use Prim.Native.Char.{code}
use Prim.Native.String.{String}
use mathlib.Core.Path.{◌≡◌, refl}
use mathlib.Core.Logic.{◌↔◌}
use mathlib.Core.Bool.{Bool, true, false, ◌&&◌, ◌||◌}
use mathlib.Core.Option.{Option, none, some}
use mathlib.Core.List.{List, [], ◌∷◌, map, reverse}
use native.Mathlib.Omega.{arith}
use edukod_companion.Base.Tests.{ltb, leb, ◌==◌, if◌then◌else◌}
use edukod_companion.Base.Lists.{length, all}

abbrev pub Bytes : Type 0
Bytes = List ℕ

-- The bytes of an ASCII literal.
abbrev pub codes : String → Bytes
codes String.[] = []
codes (String.◌∷◌ c s) = code c ∷ codes s

-- `==` on strings.
unfoldable pub bytes_eq : Bytes → Bytes → Bool
bytes_eq [] [] = true
bytes_eq (a ∷ s) (b ∷ t) = (a == b) && bytes_eq s t
bytes_eq _ _ = false

pub bytes_eq_iff : (s t : Bytes) → (bytes_eq s t ≡ true) ↔ (s ≡ t)
unfolding bytes_eq
bytes_eq_iff [] [] = ((λ _. refl), (λ _. refl))
bytes_eq_iff [] (b ∷ t) = ((λ h. cc), (λ h. cc))
bytes_eq_iff (a ∷ s) [] = ((λ h. cc), (λ h. cc))
bytes_eq_iff (a ∷ s) (b ∷ t) = ground (arith, bytes_eq_iff s t)

pub bytes_eq_refl : (s : Bytes) → bytes_eq s s ≡ true
bytes_eq_refl s = (bytes_eq_iff s s).1 refl

-- `strings.HasPrefix` with what follows the prefix.
unfoldable pub strip_prefix : Bytes → Bytes → Option Bytes
strip_prefix [] s = some s
strip_prefix (p ∷ ps) [] = none
strip_prefix (p ∷ ps) (c ∷ s) = if p == c then strip_prefix ps s else none

unfoldable pub has_prefix : Bytes → Bytes → Bool
unfolding strip_prefix
has_prefix s p = elim (strip_prefix p s) [ none ↦ false | some _ ↦ true ]

-- `strings.Contains`.
unfoldable pub contains : Bytes → Bytes → Bool
unfolding has_prefix
contains [] p = has_prefix [] p
contains (c ∷ s) p = has_prefix (c ∷ s) p || contains s p

is_one_of : ℕ → Bytes → Bool
is_one_of b [] = false
is_one_of b (c ∷ cs) = (b == c) || is_one_of b cs

-- `strings.ContainsAny`, for a set of ASCII characters.
unfoldable pub contains_any : Bytes → Bytes → Bool
unfolding is_one_of
contains_any [] cs = false
contains_any (b ∷ s) cs = is_one_of b cs || contains_any s cs

abbrev pub is_upper : ℕ → Bool
is_upper c = leb b'A' c && leb c b'Z'

abbrev pub is_lower : ℕ → Bool
is_lower c = leb b'a' c && leb c b'z'

abbrev pub is_digit : ℕ → Bool
is_digit c = leb b'0' c && leb c b'9'

abbrev pub is_alnum : ℕ → Bool
is_alnum c = is_upper c || is_lower c || is_digit c

unfoldable pub upper_ascii : ℕ → ℕ
upper_ascii c = if is_lower c then c - 32 else c

unfoldable pub lower_ascii : ℕ → ℕ
lower_ascii c = if is_upper c then c + 32 else c

abbrev pub is_ascii : Bytes → Bool
is_ascii = all (λ b. ltb b 128)

-- The case mappings of package unicode, for texts that are not all ASCII.
pub record Unicode : Type 0 where
  pub upper : Bytes → Bytes
  pub lower : Bytes → Bytes

-- `strings.ToUpper` and `strings.ToLower`.
unfoldable pub to_upper : Unicode → Bytes → Bytes
unfolding upper_ascii
to_upper u s = if is_ascii s then map upper_ascii s else u.upper s

unfoldable pub to_lower : Unicode → Bytes → Bytes
unfolding lower_ascii
to_lower u s = if is_ascii s then map lower_ascii s else u.lower s

-- The UTF-8 encodings of the characters that `unicode.IsSpace` holds of.
abbrev space_encodings : List Bytes
space_encodings =
    (0x20 ∷ [])
    ∷ (0x09 ∷ [])
    ∷ (0x0a ∷ [])
    ∷ (0x0b ∷ [])
    ∷ (0x0c ∷ [])
    ∷ (0x0d ∷ [])
    ∷ (0xc2 ∷ 0x85 ∷ [])
    ∷ (0xc2 ∷ 0xa0 ∷ [])
    ∷ (0xe1 ∷ 0x9a ∷ 0x80 ∷ [])
    ∷ (0xe2 ∷ 0x80 ∷ 0x80 ∷ [])
    ∷ (0xe2 ∷ 0x80 ∷ 0x81 ∷ [])
    ∷ (0xe2 ∷ 0x80 ∷ 0x82 ∷ [])
    ∷ (0xe2 ∷ 0x80 ∷ 0x83 ∷ [])
    ∷ (0xe2 ∷ 0x80 ∷ 0x84 ∷ [])
    ∷ (0xe2 ∷ 0x80 ∷ 0x85 ∷ [])
    ∷ (0xe2 ∷ 0x80 ∷ 0x86 ∷ [])
    ∷ (0xe2 ∷ 0x80 ∷ 0x87 ∷ [])
    ∷ (0xe2 ∷ 0x80 ∷ 0x88 ∷ [])
    ∷ (0xe2 ∷ 0x80 ∷ 0x89 ∷ [])
    ∷ (0xe2 ∷ 0x80 ∷ 0x8a ∷ [])
    ∷ (0xe2 ∷ 0x80 ∷ 0xa8 ∷ [])
    ∷ (0xe2 ∷ 0x80 ∷ 0xa9 ∷ [])
    ∷ (0xe2 ∷ 0x80 ∷ 0xaf ∷ [])
    ∷ (0xe2 ∷ 0x81 ∷ 0x9f ∷ [])
    ∷ (0xe3 ∷ 0x80 ∷ 0x80 ∷ [])
    ∷ []

strip_one : List Bytes → Bytes → Option Bytes
strip_one [] s = none
strip_one (p ∷ ps) s = elim (strip_prefix p s) [ some rest ↦ some rest | none ↦ strip_one ps s ]

-- No encoding is empty, so as many rounds as there are bytes are enough.
strip_all : List Bytes → ℕ → Bytes → Bytes
strip_all ps zero s = s
strip_all ps (suc fuel) s = elim (strip_one ps s) [ none ↦ s | some rest ↦ strip_all ps fuel rest ]

-- `strings.TrimSpace`. From the right, text and encodings are read backwards.
unfoldable pub trim_space : Bytes → Bytes
unfolding strip_prefix strip_one strip_all
trim_space s =
    let left = strip_all space_encodings (length s) s in
    reverse (strip_all (map reverse space_encodings) (length left) (reverse left))
