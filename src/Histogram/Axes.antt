-- ===== src/Histogram/Axes.antt =====
-- The axes of utils/histogram/chrono_axes.hpp. The axis of Boost.Histogram under it, which takes
-- counts, is a parameter. A count of 64 bits is a sign and a magnitude, 0 without a sign; an overflow
-- of the conversion, which is undefined, is `fault`.
use fb_utils.Prelude.{
  ℕ, suc, ◌*◌, ◌/◌, Bool, false, leb, ◌==◌, if◌then◌else◌, Str, Result, ok, fault, ◌>>=◌,
}
use fb_utils.ProgramOptions.Chrono.{TimeUnit, period, rep_max}

abbrev pub Count : Type 0
Count = Bool × ℕ

abbrev pub signed : Bool → ℕ → Count
signed negative n = if n == 0 then (false, 0) else (negative, n)

abbrev pub in_range : Bool → ℕ → Result Str Count
in_range negative n =
    if leb n (if negative then suc rep_max else rep_max) then ok (signed negative n) else fault

-- The number of whole units, as `/` rounds to zero.
unfoldable pub whole_units : TimeUnit → TimeUnit → ℕ → ℕ
whole_units to from n =
    if leb (period to) (period from)
    then n * (period from / period to)
    else n / (period to / period from)

-- The constructor of duration_adapter, from a count of another unit.
unfoldable pub duration_adapter : TimeUnit → TimeUnit → Count → Result Str Count
unfolding whole_units
duration_adapter to from (negative, n) = in_range negative (whole_units to from n)

-- The axis underneath: its state, its positions, and what an update of it tells.
pub record BaseAxis (Axis Index Update : Type 0) : Type 0 where
  pub index : Axis → Count → Index
  pub update : Axis → Count → Update × Axis

module _ {Axis Index Update : Type 0} (base : BaseAxis Axis Index Update) where
  unfoldable pub index : TimeUnit → Axis → TimeUnit → Count → Result Str Index
  unfolding duration_adapter
  index to axis from count = do value ← duration_adapter to from count; ok (base.index axis value)

  unfoldable pub update : TimeUnit → Axis → TimeUnit → Count → Result Str (Update × Axis)
  unfolding duration_adapter
  update to axis from count = do value ← duration_adapter to from count; ok (base.update axis value)
