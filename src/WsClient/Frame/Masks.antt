-- ===== src/WsClient/Frame/Masks.antt =====
-- The masks of a frame's two header bytes as arithmetic, over all values that stand there.
use Prim.Native.Nat.{bit_and, bit_or}
use edukod_companion.Base.{ℕ, ◌<◌, ◌≡◌, refl, Bool, true, false, not, ◌==◌, ==_iff}
use edukod_companion.Base.Bits.{for_all, for_all_under}

-- The first byte: the final bit over the opcode.
unfoldable pub first_byte : Bool → ℕ → ℕ
first_byte true opcode = bit_or opcode 0x80
first_byte false opcode = opcode

module _ (f g : ℕ → ℕ) where
  table : (n : ℕ) → for_all (λ x. f x == g x) n ≡ true → (x : ℕ) → x < n → f x ≡ g x
  table n e x h = (==_iff (f x) (g x)).0 (for_all_under (λ x. f x == g x) n x e h)

pub first_byte-reserved : (final : Bool) (op : ℕ) → op < 16 → bit_and (first_byte final op) 0x70 ≡ 0
unfolding first_byte for_all
first_byte-reserved true = table _ _ 16 refl
first_byte-reserved false = table _ _ 16 refl

pub first_byte-opcode : (final : Bool) (op : ℕ) → op < 16 → bit_and (first_byte final op) 0x0f ≡ op
unfolding first_byte for_all
first_byte-opcode true = table _ _ 16 refl
first_byte-opcode false = table _ _ 16 refl

final_true : (op : ℕ) → op < 16 → bit_and (first_byte true op) 0x80 ≡ 128
unfolding first_byte for_all
final_true = table _ _ 16 refl

final_false : (op : ℕ) → op < 16 → bit_and (first_byte false op) 0x80 ≡ 0
unfolding first_byte for_all
final_false = table _ _ 16 refl

pub first_byte-final :
    (final : Bool) (op : ℕ) → op < 16 → not (bit_and (first_byte final op) 0x80 == 0) ≡ final
first_byte-final true op h = rw (final_true op h)
first_byte-final false op h = rw (final_false op h)

pub flag-length : (n : ℕ) → n < 128 → bit_and (bit_or 0x80 n) 0x7f ≡ n
unfolding for_all
flag-length = table _ _ 128 refl

pub flag-set : (n : ℕ) → n < 128 → bit_and (bit_or 0x80 n) 0x80 ≡ 128
unfolding for_all
flag-set = table _ _ 128 refl

pub plain-length : (n : ℕ) → n < 128 → bit_and (bit_or 0 n) 0x7f ≡ n
unfolding for_all
plain-length = table _ _ 128 refl

pub plain-clear : (n : ℕ) → n < 128 → bit_and (bit_or 0 n) 0x80 ≡ 0
unfolding for_all
plain-clear = table _ _ 128 refl

pub or-first_byte : (op : ℕ) → op < 16 → bit_or 0x80 op ≡ first_byte true op
unfolding first_byte for_all
or-first_byte = table _ _ 16 refl
