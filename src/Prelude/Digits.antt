-- ===== src/Prelude/Digits.antt =====
-- `std::to_string` of a number that is not negative.
use Prim.Native.Nat.{ℕ, zero, suc, ◌+◌, ◌/◌, ◌%◌}
use mathlib.Core.List.{[], ◌∷◌, ◌++◌}
use fb_utils.Prelude.Tests.{ltb, if◌then◌else◌}
use fb_utils.Prelude.Text.{Str}

-- A number has fewer digits than `suc n`.
unfoldable pub digits_on : ℕ → ℕ → Str
digits_on zero n = []
digits_on (suc fuel) n =
    let front = digits_on fuel (n / 10) in (if ltb n 10 then [] else front) ++ (48 + n % 10) ∷ []

unfoldable pub show : ℕ → Str
unfolding digits_on
show n = digits_on (suc n) n
