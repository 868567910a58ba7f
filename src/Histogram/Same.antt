-- ===== src/Histogram/Same.antt =====
-- Durations of the same length on the axes of utils/histogram/chrono_axes.hpp.
use fb_utils.Prelude.{ℕ, ◌+◌, ◌*◌, ◌≤◌, ◌<◌, ◌≡◌, refl, Bool, arith}
use fb_utils.ProgramOptions.Chrono.{TimeUnit, period}
use fb_utils.Histogram.Axes.{whole_units, duration_adapter, BaseAxis, index, update}

whole_units-bounds :
    (to from : TimeUnit) (n : ℕ)
    → (whole_units to from n * period to ≤ n * period from)
      × (n * period from < (whole_units to from n + 1) * period to)
unfolding whole_units
whole_units-bounds to from n = ground arith

only_one :
    (to : TimeUnit) (length k l : ℕ)
    → k * period to ≤ length
    → length < (k + 1) * period to
    → l * period to ≤ length
    → length < (l + 1) * period to
    → k ≡ l
only_one to length k l a b c d = ground arith

whole_units-Same :
    (to from other : TimeUnit) (n m : ℕ)
    → n * period from ≡ m * period other
    → whole_units to from n ≡ whole_units to other m
whole_units-Same to from other n m h =
    let (a, b) = whole_units-bounds to from n in
    let (c, d) = whole_units-bounds to other m in
    only_one to (n * period from) (whole_units to from n) (whole_units to other m) a b (rw (h) c)
      (rw (h) d)

-- Durations of the same sign and length are at the same position of an axis, and update it in the
-- same way, whatever their units are.
pub index-update-Same :
    {Axis Index Update : Type 0} (base : BaseAxis Axis Index Update) (axis : Axis)
    (to from other : TimeUnit) (negative : Bool) (n m : ℕ)
    → n * period from ≡ m * period other
    → (index base to axis from (negative, n) ≡ index base to axis other (negative, m))
      × (update base to axis from (negative, n) ≡ update base to axis other (negative, m))
unfolding index update duration_adapter
index-update-Same base axis to from other negative n m h =
    rw (whole_units-Same to from other n m h) (refl, refl)
