-- ===== src/Protocol/Id.antt =====
-- protocol.go, `requestIDPattern`: a matcher, against the language of the regular expression.
use edukod_companion.Base.{
  ℕ, zero, suc, ◌≤◌, ◌≡◌, refl, ◌↔◌, Bool, true, false, ◌&&◌, ◌||◌, [], ◌∷◌, ◌++◌, arith, Bytes,
  length, all, leb, ◌==◌, is_alnum,
}

-- `[A-Za-z0-9._:-]`
abbrev pub is_id_char : ℕ → Bool
is_id_char c = is_alnum c || c == b'.' || c == b'_' || c == b':' || c == b'-'

-- `^[A-Za-z0-9][A-Za-z0-9._:-]{0,127}$`
unfoldable pub matches_id : Bytes → Bool
matches_id [] = false
matches_id (c ∷ cs) = is_alnum c && all is_id_char cs && leb (length cs) 127

-- Regular expressions over bytes, as far as the pattern needs them.
pub data Regex : Type 0 where
  class : (ℕ → Bool) → Regex
  seq : Regex → Regex → Regex
  up_to : ℕ → Regex → Regex

-- The words of an expression. `up_to n r` is `r{0,n}`.
pub data Matches : Regex → Bytes → Type 0 where
  one : {p : ℕ → Bool} {c : ℕ} → p c ≡ true → Matches (class p) (c ∷ [])
  both :
      {r q : Regex} {s t u : Bytes} → Matches r s → Matches q t → u ≡ s ++ t → Matches (seq r q) u
  stop : {n : ℕ} {r : Regex} → Matches (up_to n r) []
  again :
      {n : ℕ} {r : Regex} {s t u : Bytes}
      → Matches r s
      → Matches (up_to n r) t
      → u ≡ s ++ t
      → Matches (up_to (suc n) r) u

abbrev pub request_id_pattern : Regex
request_id_pattern = seq (class is_alnum) (up_to 127 (class is_id_char))

-- The words of `[p]{0,n}` are the texts of at most `n` characters of the class.
up_to_complete :
    (n : ℕ) (p : ℕ → Bool) (s : Bytes)
    → all p s ≡ true
    → length s ≤ n
    → Matches (up_to n (class p)) s
up_to_complete n p [] h l = stop
up_to_complete zero p (c ∷ s) h l = absurd (omega arith)
up_to_complete (suc n) p (c ∷ s) h l =
    again (one (ground arith)) (up_to_complete n p s (ground arith) (omega arith)) refl

class-word :
    (p : ℕ → Bool) {s : Bytes} → Matches (class p) s → (c : ℕ) × (s ≡ c ∷ []) × (p c ≡ true)
class-word p (one {c = c} h) = (c, refl, h)

up_to_sound :
    (p : ℕ → Bool) {n : ℕ} {r : Regex} {s : Bytes}
    → Matches (up_to n r) s
    → r ≡ class p
    → (all p s ≡ true) × (length s ≤ n)
up_to_sound p stop e = (refl, omega arith)
up_to_sound p (again {s = s} {t = t} h rest e) k =
    let (c, word, good) = class-word p (rw k at h) in
    let ih = up_to_sound p rest k in rw (e, word) (ground arith)

matches_id_complete : (s : Bytes) → matches_id s ≡ true → Matches request_id_pattern s
unfolding matches_id
matches_id_complete [] h = cc
matches_id_complete (c ∷ cs) h =
    both (one {c = c} (ground arith))
      (up_to_complete 127 is_id_char cs (ground arith) (ground arith)) refl

matches_id_sound : {s : Bytes} → Matches request_id_pattern s → matches_id s ≡ true
unfolding matches_id
matches_id_sound (both {s = s} {t = t} h rest e) =
    let (c, word, good) = class-word is_alnum h in
    let ih = up_to_sound is_id_char rest refl in rw (e, word) (ground arith)

-- The matcher accepts exactly the words of the regular expression `requestIDPattern`.
pub matches_id_iff : (s : Bytes) → (matches_id s ≡ true) ↔ Matches request_id_pattern s
matches_id_iff s = (matches_id_complete s, matches_id_sound)

-- A request id has 1 to 128 bytes.
pub matches_id-length : (s : Bytes) → matches_id s ≡ true → (1 ≤ length s) × (length s ≤ 128)
unfolding matches_id
matches_id-length [] h = cc
matches_id-length (c ∷ cs) h = ground arith
