-- ===== src/Base/Bits.antt =====
-- Masks on one byte, checked by evaluation over all its values.
use Prim.Native.Nat.{ℕ, zero, suc, ◌<◌, bit_xor}
use mathlib.Core.Path.{◌≡◌, refl}
use mathlib.Core.Bool.{Bool, true, ◌&&◌}
use native.Mathlib.Omega.{arith}
use edukod_companion.Base.Tests.{◌==◌, ==_iff}

-- Does a test hold of all numbers under a bound?
unfoldable pub for_all : (ℕ → Bool) → ℕ → Bool
for_all test zero = true
for_all test (suc bound) = for_all test bound && test bound

pub for_all_under :
    (test : ℕ → Bool) (bound n : ℕ) → for_all test bound ≡ true → n < bound → test n ≡ true
unfolding for_all
for_all_under test zero n holds under = absurd (omega arith)
for_all_under test (suc bound) n holds under = ground (arith, for_all_under test bound n)

xor_table : for_all (λ a. for_all (λ m. bit_xor (bit_xor a m) m == a) 256) 256 ≡ true
unfolding for_all
xor_table = refl

-- Masking a byte twice with one key gives it back.
pub xor_twice : (a m : ℕ) → a < 256 → m < 256 → bit_xor (bit_xor a m) m ≡ a
xor_twice a m ha hm = (==_iff _ a).0 (for_all_under _ 256 m (for_all_under _ 256 a xor_table ha) hm)
