-- ===== src/Prelude/Text.antt =====
-- Byte strings, and the members of std::string_view that the sources call. A position that the
-- standard gives as `npos` is `none`.
use Prim.Native.Nat.{ℕ, suc}
use Prim.Native.Char.{code}
use Prim.Native.String.{String}
use mathlib.Core.Path.{◌≡◌}
use mathlib.Core.Logic.{◌↔◌}
use mathlib.Core.Bool.{Bool, true, false, not, ◌&&◌, ◌||◌}
use mathlib.Core.List.{List, [], ◌∷◌}
use mathlib.Core.Option.{Option, none, some}
use native.Mathlib.Omega.{arith}
use fb_utils.Prelude.Tests.{◌==◌, if◌then◌else◌}
use fb_utils.Prelude.Lists.{take, drop, get_or}

abbrev pub Str : Type 0
Str = List ℕ

-- The bytes of an ASCII literal.
abbrev pub codes : String → Str
codes String.[] = []
codes (String.◌∷◌ c s) = code c ∷ codes s

abbrev pub elem : ℕ → Str → Bool
elem c [] = false
elem c (x ∷ xs) = c == x || elem c xs

-- `==` on texts.
unfoldable pub equal : Str → Str → Bool
equal [] [] = true
equal [] (y ∷ ys) = false
equal (x ∷ xs) [] = false
equal (x ∷ xs) (y ∷ ys) = equal xs ys && x == y

pub equal_iff : (left right : Str) → (equal left right ≡ true) ↔ (left ≡ right)
unfolding equal
equal_iff [] [] = ground arith
equal_iff [] (y ∷ right) = ground arith
equal_iff (x ∷ left) [] = ground arith
equal_iff (x ∷ left) (y ∷ right) = ground (equal_iff left right, arith)

-- `starts_with(prefix)`
abbrev pub starts_with : Str → Str → Bool
starts_with s [] = true
starts_with [] (p ∷ ps) = false
starts_with (c ∷ s) (p ∷ ps) = c == p && starts_with s ps

-- `ends_with(c)`
abbrev pub ends_with : Str → ℕ → Bool
ends_with [] c = false
ends_with (x ∷ []) c = x == c
ends_with (x ∷ y ∷ s) c = ends_with (y ∷ s) c

-- The first position that satisfies the test, the text's own first position being `k`.
unfoldable pub index_from : (ℕ → Bool) → ℕ → Str → Option ℕ
index_from p k [] = none
index_from p k (c ∷ cs) = if p c then some k else index_from p (suc k) cs

-- `find_if` from position `pos` on.
unfoldable pub find_if : (ℕ → Bool) → Str → ℕ → Option ℕ
unfolding index_from
find_if p s pos = index_from p pos (drop pos s)

abbrev pub find_first_not_of : Str → Str → ℕ → Option ℕ
find_first_not_of s chars pos = find_if (λ c. not (elem c chars)) s pos

abbrev pub find_first_of : Str → Str → ℕ → Option ℕ
find_first_of s chars pos = find_if (λ c. elem c chars) s pos

abbrev pub find_char : Str → ℕ → ℕ → Option ℕ
find_char s c pos = find_if (λ x. x == c) s pos

-- The last position that satisfies the test.
unfoldable pub last_index_from : (ℕ → Bool) → ℕ → Str → Option ℕ
last_index_from p k [] = none
last_index_from p k (c ∷ cs) = elim (last_index_from p (suc k) cs) [
  | some i ↦ some i
  | none ↦ if p c then some k else none
]

unfoldable pub find_last_not_of : Str → Str → Option ℕ
unfolding last_index_from
find_last_not_of s chars = last_index_from (λ c. not (elem c chars)) 0 s

-- `substr(pos, n)`; every caller has `pos <= size()`.
abbrev pub substr : Str → ℕ → ℕ → Str
substr s pos n = take n (drop pos s)

-- `s[i]`; every caller has `i < size()`.
abbrev pub at : Str → ℕ → ℕ
at s i = get_or s i 0
