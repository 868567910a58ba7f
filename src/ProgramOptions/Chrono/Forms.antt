-- ===== src/ProgramOptions/Chrono/Forms.antt =====
-- Which texts the grammar of utils/program_options/chrono.hpp takes as a whole.
use fb_utils.Prelude.{
  ℕ, ◌≤◌, ◌≡◌, ◌⊎◌, refl, sym, ap, inl, inr, [], ◌∷◌, Option, none, some, Str, ◌++◌, drop, ok,
  arith,
}
use fb_utils.Spirit.{Spirit, Documented, is_digit, cut, longest, or_else, with_attribute}
use fb_utils.Spirit.Span.{Stops}
use fb_utils.Spirit.Longest.{Member, here, there, Found, starts_with-append}
use fb_utils.ProgramOptions.Chrono.{TimeUnit, Cast, units, duration_cast, unit_part, rep_max}

-- The unit that a suffix names, the option's own where there is none.
abbrev pub Suffix : TimeUnit → Str → TimeUnit → Type 0
Suffix to suffix unit = ((suffix ≡ []) × (unit ≡ to)) ⊎ Member (suffix, unit) units

-- The conversion is that from the unit, as far as numbers are in range.
abbrev pub Converts : TimeUnit → TimeUnit → Cast → Type 0
Converts to unit cast = (k : ℕ) → k ≤ rep_max → cast k ≡ duration_cast to unit k

-- What the unit's part reads.
abbrev pub unit_read : TimeUnit → Str → Option (ℕ × TimeUnit) → Option (Cast × Str)
unit_read to rest o = or_else (with_attribute (duration_cast to) (cut rest o)) (some (ok, rest))

same_unit : (to : TimeUnit) → Converts to to ok
unfolding duration_cast
same_unit to k h = ground arith

pub unit_part_lem :
    (x : Spirit)
    → Documented x
    → (to : TimeUnit) (rest : Str)
    → x.parse (unit_part x to) rest ≡ unit_read to rest (longest units rest)
unfolding unit_part
unit_part_lem x d to rest =
    rw
      (
        d.parse-alt _ _ rest,
        d.parse-rule (duration_cast to) (x.symbols units) rest,
        d.parse-symbols units rest,
        d.parse-attr {A = Cast} ok rest,
      )
      refl

-- What is behind a duration: the end, or the comma of a list.
pub data Ends : Str → Type 0 where
  at_end : Ends []
  at_comma : (rest : Str) → Ends (b',' ∷ rest)

Found-Suffix :
    (to : TimeUnit) (rest : Str) (n : ℕ) (unit : TimeUnit) (cast : Cast) (tail : Str)
    → Found units rest n unit
    → ◌≡◌ {A = Option (Cast × Str)} (some (duration_cast to unit, drop n rest)) (some (cast, tail))
    → (suffix : Str) × (unit : TimeUnit) × (rest ≡ suffix ++ tail)
      × Suffix to suffix unit
      × Converts to unit cast
Found-Suffix to rest n unit cast tail found e =
    let left : drop n rest ≡ tail = cc in
    let same : duration_cast to unit ≡ cast = cc in
    let split : rest ≡ found.name ++ drop n rest =
      rw (found.length_lem) at (starts_with-append rest found.name found.text_lem) in
    (found.name, unit, rw (left) at split, inr found.name_lem, λ k h. ap (λ f. f k) (sym same))

pub unit_read-Suffix :
    (to : TimeUnit) (rest : Str) (o : Option (ℕ × TimeUnit)) (cast : Cast) (tail : Str)
    → ((n : ℕ) (u : TimeUnit) → o ≡ some (n, u) → Found units rest n u)
    → unit_read to rest o ≡ some (cast, tail)
    → (suffix : Str) × (unit : TimeUnit) × (rest ≡ suffix ++ tail)
      × Suffix to suffix unit
      × Converts to unit cast
unit_read-Suffix to rest none cast tail h e =
    let same : cast ≡ ok = cc in
    let left : rest ≡ tail = cc in rw (same) ([], to, left, inl (refl, refl), same_unit to)
unit_read-Suffix to rest (some (n, u)) cast tail h e =
    Found-Suffix to rest n u cast tail (h n u refl) e

-- The part of the unit leaves what is behind the suffix.
abbrev ReadsUnit : TimeUnit → Str → TimeUnit → Str → Type 0
ReadsUnit to suffix unit tail =
    (cast : Cast) × (unit_read to (suffix ++ tail) (longest units (suffix ++ tail))
      ≡ some (cast, tail))
    × Converts to unit cast
    × Stops is_digit (suffix ++ tail)

Member-ReadsUnit :
    (to : TimeUnit) (suffix : Str) (unit : TimeUnit) (tail : Str)
    → Member (suffix, unit) units
    → Ends tail
    → ReadsUnit to suffix unit tail
unfolding longest
Member-ReadsUnit to suffix unit tail here at_end = (duration_cast to unit, refl, λ k h. refl, refl)
Member-ReadsUnit to suffix unit tail here (at_comma rest) =
    (duration_cast to unit, refl, λ k h. refl, refl)
Member-ReadsUnit to suffix unit tail (there here) at_end =
    (duration_cast to unit, refl, λ k h. refl, refl)
Member-ReadsUnit to suffix unit tail (there here) (at_comma rest) =
    (duration_cast to unit, refl, λ k h. refl, refl)
Member-ReadsUnit to suffix unit tail (there (there here)) at_end =
    (duration_cast to unit, refl, λ k h. refl, refl)
Member-ReadsUnit to suffix unit tail (there (there here)) (at_comma rest) =
    (duration_cast to unit, refl, λ k h. refl, refl)
Member-ReadsUnit to suffix unit tail (there (there (there here))) at_end =
    (duration_cast to unit, refl, λ k h. refl, refl)
Member-ReadsUnit to suffix unit tail (there (there (there here))) (at_comma rest) =
    (duration_cast to unit, refl, λ k h. refl, refl)
Member-ReadsUnit to suffix unit tail (there (there (there (there here)))) at_end =
    (duration_cast to unit, refl, λ k h. refl, refl)
Member-ReadsUnit to suffix unit tail (there (there (there (there here)))) (at_comma rest) =
    (duration_cast to unit, refl, λ k h. refl, refl)
Member-ReadsUnit to suffix unit tail (there (there (there (there (there here))))) at_end =
    (duration_cast to unit, refl, λ k h. refl, refl)
Member-ReadsUnit to suffix unit tail (there (there (there (there (there here))))) (at_comma rest) =
    (duration_cast to unit, refl, λ k h. refl, refl)
Member-ReadsUnit to suffix unit tail (there (there (there (there (there (there m)))))) e =
    elim m [ ]

pub Suffix-unit_read :
    (to : TimeUnit) (suffix : Str) (unit : TimeUnit) (tail : Str)
    → Suffix to suffix unit
    → Ends tail
    → ReadsUnit to suffix unit tail
unfolding longest
Suffix-unit_read to suffix unit tail (inl (e0, e1)) at_end =
    rw (e0, e1) (ok, refl, same_unit to, tt)
Suffix-unit_read to suffix unit tail (inl (e0, e1)) (at_comma rest) =
    rw (e0, e1) (ok, refl, same_unit to, refl)
Suffix-unit_read to suffix unit tail (inr m) e = Member-ReadsUnit to suffix unit tail m e
