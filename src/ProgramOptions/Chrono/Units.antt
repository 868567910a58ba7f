-- ===== src/ProgramOptions/Chrono/Units.antt =====
-- A conversion of utils/program_options/chrono.hpp gives the number of whole units.
use fb_utils.Prelude.{ℕ, ◌+◌, ◌*◌, ◌≤◌, ◌<◌, ◌≡◌, ok, arith}
use fb_utils.ProgramOptions.Chrono.{TimeUnit, period, duration_cast, rep_max}

-- `n` is the number of whole units `to` in `k` units `from`, and is in range.
abbrev pub IsWhole : TimeUnit → TimeUnit → ℕ → ℕ → Type 0
IsWhole to from k n =
    (n * period to ≤ k * period from) × (k * period from < (n + 1) * period to) × (n ≤ rep_max)

-- A conversion of a count in range that does not overflow gives the number of whole units, which is
-- in range.
pub duration_cast-IsWhole :
    (to from : TimeUnit) (k n : ℕ)
    → k ≤ rep_max
    → duration_cast to from k ≡ ok n
    → IsWhole to from k n
unfolding duration_cast
duration_cast-IsWhole to from k n h e = ground arith

pub IsWhole-duration_cast :
    (to from : TimeUnit) (k n : ℕ)
    → k ≤ rep_max
    → IsWhole to from k n
    → duration_cast to from k ≡ ok n
unfolding duration_cast
IsWhole-duration_cast to from k n h e = ground arith
