-- ===== src/App/SafeError.antt =====
-- app.go, `safeError`: an error's text on one line, cut to 500 bytes.
use edukod_companion.Base.{
  ℕ, zero, suc, ◌≤◌, ◌≡◌, ◌≢◌, refl, ap, Option, none, some, [], ◌∷◌, arith, Bytes, codes, length,
  take, All, ltb, ◌==◌, if◌then◌else◌, length-take,
}

-- `strings.ReplaceAll` of one byte by another.
unfoldable pub replace_byte : ℕ → ℕ → Bytes → Bytes
replace_byte old new [] = []
replace_byte old new (b ∷ bs) = (if b == old then new else b) ∷ replace_byte old new bs

unfoldable pub cut : ℕ → Bytes → Bytes
cut n s = if ltb n (length s) then take n s else s

-- `none` is a nil error.
unfoldable pub safe_error : Option Bytes → Bytes
unfolding replace_byte cut
safe_error none = codes "connection closed"
safe_error (some text) = cut 500 (replace_byte b'\r' b' ' (replace_byte b'\n' b' ' text))

abbrev pub IsOneLine : Bytes → Type 0
IsOneLine = All (λ b. (b ≢ b'\n') × (b ≢ b'\r'))

replace_both-IsOneLine :
    (s : Bytes) → IsOneLine (replace_byte b'\r' b' ' (replace_byte b'\n' b' ' s))
unfolding replace_byte
replace_both-IsOneLine [] = tt
replace_both-IsOneLine (b ∷ bs) =
    ((λ e. ground arith, λ e. ground arith), replace_both-IsOneLine bs)

take-IsOneLine : (n : ℕ) (s : Bytes) → IsOneLine s → IsOneLine (take n s)
take-IsOneLine zero s h = tt
take-IsOneLine (suc n) [] h = tt
take-IsOneLine (suc n) (b ∷ s) h = (h.0, take-IsOneLine n s h.1)

cut-IsOneLine : (n : ℕ) (s : Bytes) → IsOneLine s → IsOneLine (cut n s)
unfolding cut
cut-IsOneLine n s h = ground (arith, take-IsOneLine n s h)

cut-length : (n : ℕ) (s : Bytes) → length (cut n s) ≤ n
unfolding cut
cut-length n s = ground (arith, length-take n s)

length-replace_byte : (old new : ℕ) (s : Bytes) → length (replace_byte old new s) ≡ length s
unfolding replace_byte
length-replace_byte old new [] = refl
length-replace_byte old new (b ∷ bs) = ap suc (length-replace_byte old new bs)

cut-short : (n : ℕ) (s : Bytes) → length s ≤ n → cut n s ≡ s
unfolding cut
cut-short n s h = ground arith

-- A reported error has at most 500 bytes and no line break.
pub safe_error_bounds :
    (e : Option Bytes) → (length (safe_error e) ≤ 500) × IsOneLine (safe_error e)
unfolding safe_error
safe_error_bounds none = omega arith
safe_error_bounds (some text) =
    let line : Bytes = replace_byte b'\r' b' ' (replace_byte b'\n' b' ' text) in
    (cut-length 500 line, cut-IsOneLine 500 line (replace_both-IsOneLine text))

replace_byte_absent : (old new : ℕ) (s : Bytes) → All (λ b. b ≢ old) s → replace_byte old new s ≡ s
unfolding replace_byte
replace_byte_absent old new [] h = refl
replace_byte_absent old new (b ∷ bs) h = ground (arith, replace_byte_absent old new bs h.1)

All-both : (s : Bytes) → IsOneLine s → All (λ b. b ≢ b'\n') s × All (λ b. b ≢ b'\r') s
All-both [] h = (tt, tt)
All-both (b ∷ s) h = let (x, y) = All-both s h.1 in ((h.0.0, x), (h.0.1, y))

-- A short text on one line is reported as it is.
pub safe_error_short :
    (text : Bytes) → length text ≤ 500 → IsOneLine text → safe_error (some text) ≡ text
unfolding safe_error
safe_error_short text short line =
    let (no_lf, no_cr) = All-both text line in
    rw (replace_byte_absent b'\n' b' ' text no_lf, replace_byte_absent b'\r' b' ' text no_cr)
      (cut-short 500 text short)
