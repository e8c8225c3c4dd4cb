-- ===== src/Base/Actions.antt =====
-- Actions on a state that may fail: Go code that returns an error, as a monad.
use mathlib.Core.Bool.{Bool, true, false}
use edukod_companion.Base.Outcome.{Result, ok, err}

-- The state is kept when the action fails: what was done before stays done.
abbrev pub Fallible : Type 0 → Type 0 → Type 0 → Type 0
Fallible S E A = S → Result E A × S

module _ {S E : Type 0} where
  abbrev pub pure : {A : Type 0} → A → Fallible S E A
  pure a s = (ok a, s)

  abbrev pub continue : {A B : Type 0} → Result E A × S → (A → Fallible S E B) → Result E B × S
  continue (ok a, s) f = f a s
  continue (err e, s) f = (err e, s)

  -- Return early with an error.
  abbrev pub fail_if : Bool → E → Fallible S E (Unit {0})
  fail_if true e s = (err e, s)
  fail_if false e s = (ok tt, s)

infixl 5 ◌>>=◌ ◌>>◌
abbrev pub ◌>>=◌ : {S E A B : Type 0} → Fallible S E A → (A → Fallible S E B) → Fallible S E B
◌>>=◌ m f s = continue (m s) f

abbrev pub ◌>>◌ : {S E B : Type 0} → Fallible S E (Unit {0}) → Fallible S E B → Fallible S E B
m >> k = m >>= λ _. k
