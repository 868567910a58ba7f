-- ===== src/Histogram/Exact.antt =====
-- `readable_time` of utils/histogram/chrono_axes.hpp on less than a minute.
use fb_utils.Prelude.{
  ℕ, ◌*◌, ◌/◌, ◌%◌, ◌≤◌, ◌<◌, ◌≡◌, ◌⊎◌, refl, inl, inr, Bool, true, false, Bool-cases, ◌||◌, ltb,
  ◌==◌, if◌then◌else◌, [], ◌++◌, Str, codes, show, arith,
}
use fb_utils.Histogram.Time.{minute_ns, unit_of, show_signed, readable_time}

-- The units in which a time can be written.
pub data ReadableUnit : Type 0 where
  s : ReadableUnit
  ms : ReadableUnit
  us : ReadableUnit
  ns : ReadableUnit

-- How many nanoseconds a unit has, and what is behind the number.
abbrev pub length_of : ReadableUnit → ℕ
length_of s = 1000000000
length_of ms = 1000000
length_of us = 1000
length_of ns = 1

abbrev pub suffix_of : ReadableUnit → Str
suffix_of s = codes " s"
suffix_of ms = codes " ms"
suffix_of us = codes " us"
suffix_of ns = codes " ns"

-- A unit divides the duration, and no larger unit does.
abbrev pub IsBest : ℕ → ReadableUnit → Type 0
IsBest d unit =
    (d / length_of unit * length_of unit ≡ d)
    × ((other : ReadableUnit) → d % length_of other ≡ 0 → length_of other ≤ length_of unit)

-- What readable_time takes is such a unit.
unit_of-IsBest :
    (d : ℕ) → (unit : ReadableUnit) × IsBest d unit × (unit_of d ≡ (length_of unit, suffix_of unit))
unfolding unit_of
unit_of-IsBest d = elim (Bool-cases (d % 1000000000 == 0)) [
  | inl a ↦ (s, (ground arith, λ other k. ground arith), rw (a) refl)
  | inr a ↦ elim (Bool-cases (d % 1000000 == 0)) [
    | inl b ↦ (ms, (ground arith, λ other k. ground arith), rw (a, b) refl)
    | inr b ↦ elim (Bool-cases (d % 1000 == 0)) [
      | inl c ↦ (us, (ground arith, λ other k. ground arith), rw (a, b, c) refl)
      | inr c ↦ (ns, (ground arith, λ other k. ground arith), rw (a, b, c) refl)
    ]
  ]
]

sign-append :
    (negative : Bool) (n : ℕ) (name : Str)
    → show_signed negative n ++ name ≡ (if negative then codes "-" else []) ++ show n ++ name
sign-append true n name = refl
sign-append false n name = refl

-- A duration that is not 0 and is negative or less than a minute is written as its sign, a whole
-- number and one of the suffixes " s", " ms", " us" and " ns"; the number of these units is exactly
-- the duration, and no larger unit divides it.
pub readable_time-IsBest :
    (show_quotient : ℕ → ℕ → Str) (negative : Bool) (d : ℕ)
    → 0 < d
    → (negative ≡ true) ⊎ (d < minute_ns)
    → (unit : ReadableUnit) × IsBest d unit
      × (readable_time show_quotient negative d
          ≡ (if negative then codes "-" else []) ++ show (d / length_of unit) ++ suffix_of unit)
unfolding readable_time
readable_time-IsBest show_quotient negative d h k =
    let (unit, (whole, largest), e) = unit_of-IsBest d in
    let some_time : (d == 0) ≡ false = ground arith in
    let short : (negative || ltb d minute_ns) ≡ true = ground arith in
    (
      unit,
      (whole, largest),
      rw (e, some_time, short) (sign-append negative (d / length_of unit) (suffix_of unit)),
    )
