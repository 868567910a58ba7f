-- ===== src/Histogram/Time.antt =====
-- `readable_time` of utils/histogram/chrono_axes.hpp, from the nanoseconds of the duration on: its
-- sign and its magnitude, as `/` and `%` round to zero. `std::to_string` of a double, the quotient
-- of two numbers, is a parameter.
use fb_utils.Prelude.{
  ℕ, ◌*◌, ◌/◌, ◌%◌, Bool, ◌||◌, [], ◌∷◌, ◌++◌, ltb, ◌==◌, if◌then◌else◌, Str, codes, show,
}

abbrev pub UnitNs : Type 0
UnitNs = ℕ × Str

abbrev pub seconds : UnitNs
seconds = (1000000000, codes " s")

abbrev pub milliseconds : UnitNs
milliseconds = (1000000, codes " ms")

abbrev pub microseconds : UnitNs
microseconds = (1000, codes " us")

abbrev pub nanoseconds : UnitNs
nanoseconds = (1, codes " ns")

abbrev pub minute_ns : ℕ
minute_ns = 60000000000

-- The unit in which the number is written under a minute: the largest that divides it.
unfoldable pub unit_of : ℕ → UnitNs
unit_of ns =
    if ns % 1000000000 == 0
    then seconds
    else if ns % 1000000 == 0
    then milliseconds
    else if ns % 1000 == 0
    then microseconds
    else nanoseconds

-- `std::to_string` of a signed number that is not 0.
abbrev pub show_signed : Bool → ℕ → Str
show_signed negative n = if negative then b'-' ∷ show n else show n

unfoldable pub readable_time : (ℕ → ℕ → Str) → Bool → ℕ → Str
unfolding unit_of show
readable_time show_quotient negative ns =
    let (ns_per, name) = unit_of ns in
    if ns == 0
    then b'0' ∷ []
    else if negative || ltb ns minute_ns
    then show_signed negative (ns / ns_per) ++ name
    else if ltb ns (9 * minute_ns)
    then show_quotient ns 1000000000 ++ codes " s"
    else show_quotient ns minute_ns ++ codes " min"
