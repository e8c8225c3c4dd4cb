-- ===== src/Base/Decimal.antt =====
-- `%d` of package fmt, on what is not negative.
use Prim.Native.Nat.{ℕ, zero, suc, ◌+◌, ◌/◌, ◌%◌}
use mathlib.Core.List.{List, [], ◌∷◌, ◌++◌}
use edukod_companion.Base.Tests.{ltb, if◌then◌else◌}

decimal_loop : ℕ → ℕ → List ℕ
decimal_loop zero n = []
decimal_loop (suc fuel) n =
    let front = decimal_loop fuel (n / 10) in
    if ltb n 10 then (b'0' + n) ∷ [] else front ++ (b'0' + n % 10) ∷ []

-- A number has no more digits than one more than its value.
unfoldable pub decimal : ℕ → List ℕ
unfolding decimal_loop
decimal n = decimal_loop (suc n) n
