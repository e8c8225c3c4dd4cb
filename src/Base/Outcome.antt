-- ===== src/Base/Outcome.antt =====
-- A Go (value, error) pair of which exactly one side counts.
use mathlib.Core.Path.{◌≡◌, refl}
use mathlib.Core.Logic.{◌⊎◌, inl, inr}
use mathlib.Core.Bool.{Bool, true, false}
use edukod_companion.Base.Tests.{if◌then◌else◌}

pub data Result (E A : Type 0) : Type 0 where
  ok : A → Result E A
  err : E → Result E A

pub Result-cases :
    {E A : Type 0} (r : Result E A) → ((a : A) × (r ≡ ok a)) ⊎ ((e : E) × (r ≡ err e))
Result-cases (ok a) = inl (a, refl)
Result-cases (err e) = inr (e, refl)

pub ok_injective : {E A : Type 0} (a b : A) → ◌≡◌ {A = Result E A} (ok a) (ok b) → a ≡ b
ok_injective a b e = cc

-- A chain of early returns ends well only past each of its tests.
pub early_return :
    {E A : Type 0} (test : Bool) (e : E) (r : Result E A) (a : A)
    → (if test then err e else r) ≡ ok a
    → (test ≡ false) × (r ≡ ok a)
early_return true e r a h = absurd (cc)
early_return false e r a h = (refl, h)
