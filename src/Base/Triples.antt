-- ===== src/Base/Triples.antt =====
-- Rules for what an action that may fail leaves, on success and on failure.
use mathlib.Core.Path.{◌≡◌, refl}
use mathlib.Core.Bool.{Bool, true, false}
use edukod_companion.Base.Outcome.{Result, ok, err, ok_injective}
use edukod_companion.Base.Actions.{Fallible, continue, fail_if}

module _ {S E A : Type 0} where
  -- An action's result satisfies `Q` with its value, or has failed in a state that satisfies `F`.
  abbrev pub Post : (A → S → Type 0) → (S → Type 0) → Result E A × S → Type 0
  Post Q F (ok a, s) = Q a s
  Post Q F (err e, s) = F s

  pub Post-weaken :
      (Q Q' : A → S → Type 0) (F F' : S → Type 0) (r : Result E A × S)
      → Post Q F r
      → ((a : A) (s : S) → Q a s → Q' a s)
      → ((s : S) → F s → F' s)
      → Post Q' F' r
  Post-weaken Q Q' F F' (ok a, s) h q f = q a s h
  Post-weaken Q Q' F F' (err e, s) h q f = f s h

  pub Post-ok :
      (Q : A → S → Type 0) (F : S → Type 0) (r : Result E A × S) (a : A)
      → Post Q F r
      → r.0 ≡ ok a
      → Q a r.1
  Post-ok Q F (ok b, s) a h e = rw (ok_injective b a e) at h
  Post-ok Q F (err x, s) a h e = absurd (cc)

  -- What an action is known to return, it returns.
  pub Post-returned : (r : Result E A × S) (a : A) → r.0 ≡ ok a → Post (λ b s. b ≡ a) (λ s. ⊥) r
  Post-returned (ok b, s) a h = ok_injective b a h
  Post-returned (err e, s) a h = absurd (cc)

  -- An action that cannot fail has succeeded.
  pub Post-succeeds :
      (Q : A → S → Type 0) (r : Result E A × S)
      → Post Q (λ s. ⊥) r
      → (a : A) × (r.0 ≡ ok a) × Q a r.1
  Post-succeeds Q (ok a, s) h = (a, refl, h)
  Post-succeeds Q (err e, s) h = absurd h

  pub Post-both :
      (Q Q' : A → S → Type 0) (F F' : S → Type 0) (r : Result E A × S)
      → Post Q F r
      → Post Q' F' r
      → Post (λ a s. Q a s × Q' a s) (λ s. F s × F' s) r
  Post-both Q Q' F F' (ok a, s) h k = (h, k)
  Post-both Q Q' F F' (err e, s) h k = (h, k)

  -- An action that cannot succeed has failed.
  pub Post-fails :
      (F : S → Type 0) (r : Result E A × S)
      → Post (λ a s. ⊥) F r
      → ((e : E) × (r.0 ≡ err e)) × F r.1
  Post-fails F (ok a, s) h = absurd h
  Post-fails F (err e, s) h = ((e, refl), h)

  pub Post-any : (F : S → Type 0) (r : Result E A × S) → Post (λ a. F) F r → F r.1
  Post-any F (ok a, s) h = h
  Post-any F (err e, s) h = h

module _ {S E A B : Type 0} where
  -- The rule for one action after another.
  pub continue-Post :
      (Q : A → S → Type 0) (R : B → S → Type 0) (F : S → Type 0) (r : Result E A × S)
      (f : A → Fallible S E B)
      → Post Q F r
      → ((a : A) (s : S) → Q a s → Post R F (f a s))
      → Post R F (continue r f)
  continue-Post Q R F (ok a, s) f h g = g a s h
  continue-Post Q R F (err e, s) f h g = h

module _ {S E : Type 0} where
  -- Past an early return its test was false.
  pub fail_if-Post :
      (P F : S → Type 0) (test : Bool) (e : E) (s : S)
      → P s
      → F s
      → Post (λ u v. (test ≡ false) × P v) F (fail_if test e s)
  fail_if-Post P F true e s h f = f
  fail_if-Post P F false e s h f = (refl, h)

module _ {S E B : Type 0} where
  -- The same, with what comes after the early return.
  pub guard-Post :
      (R : B → S → Type 0) (F : S → Type 0) (test : Bool) (e : E) (s : S)
      (f : Unit {0} → Fallible S E B)
      → F s
      → (test ≡ false → Post R F (f tt s))
      → Post R F (continue (fail_if test e s) f)
  guard-Post R F true e s f h g = h
  guard-Post R F false e s f h g = g refl

  -- An early return that is not taken.
  pub guard_passed :
      (test : Bool) (e : E) (s : S) (f : Unit {0} → Fallible S E B)
      → test ≡ false
      → continue (fail_if test e s) f ≡ f tt s
  guard_passed true e s f h = absurd (cc)
  guard_passed false e s f h = refl
