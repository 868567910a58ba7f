-- ===== src/Histogram/Tests.antt =====
-- Runs of utils/histogram/chrono_axes.hpp, and an instance of its theorem.
use fb_utils.Histogram.Axes.{Count, BaseAxis, index, update, duration_adapter, whole_units}
use fb_utils.Histogram.Same.{index-update-Same}
use fb_utils.ProgramOptions.Chrono.{seconds, minutes, milliseconds}
use fb_utils.Prelude.{
  ok, List, ◌∷◌, All, ◌≡◌, ◌/◌, refl, inr, true, false, [], ◌++◌, codes, arith, digits_on, show,
  if◌then◌else◌,
}
use fb_utils.Histogram.Time.{unit_of, readable_time}
use fb_utils.Histogram.Dump.{
  Bin, underflow, bin, dump, add_rows, add_row, row_of, text_of_rows, lines, head, blanks,
}
use fb_utils.Histogram.Widths.{counting, IsSmall}
use fb_utils.Histogram.Table.{Table, AscendingBins, dump-Table}
use fb_utils.Histogram.Exact.{ReadableUnit, length_of, suffix_of, IsBest, readable_time-IsBest}

written : readable_time (λ n d. []) true 1500000 ≡ codes "-1500 us"
unfolding readable_time unit_of show digits_on
written = refl

readable_time-IsBest_example :
    (unit : ReadableUnit) × IsBest 1500000 unit
    × (readable_time (λ n d. []) false 1500000
        ≡ (if false then codes "-" else []) ++ show (1500000 / length_of unit) ++ suffix_of unit)
readable_time-IsBest_example =
    readable_time-IsBest (λ n d. []) false 1500000 (omega arith) (inr (omega arith))

-- Nothing below, two bins of a millisecond, of which the first counts nothing, and what is above.
abbrev bins : List Bin
bins =
    record {
      index = underflow;
      lower = (false, 0);
      upper = (false, 0);
      counts = true;
      value = codes "2";
    }
    ∷ record {
      index = bin 0;
      lower = (false, 0);
      upper = (false, 1000000);
      counts = false;
      value = codes "0";
    }
    ∷ record {
      index = bin 1;
      lower = (false, 1000000);
      upper = (false, 2000000);
      counts = true;
      value = codes "17";
    }
    ∷ []

dumped :
    dump (λ n d. []) bins (codes "19.000000")
    ≡ codes " -1 : [       0-0) : 2\n  1 : [ 1 ms-2 ms) : 17\n    ---------------\n\t19.000000\n"
unfolding dump add_rows add_row row_of readable_time unit_of show digits_on text_of_rows lines head
    blanks
dumped = refl

bins-Ascending : AscendingBins (counting bins)
bins-Ascending = ((tt, tt), (tt, tt))

bins-IsSmall : All (λ b. IsSmall b.index) (counting bins)
bins-IsSmall = (tt, (omega arith, tt))

dump-Table_example :
    Table
      (λ n d. [])
      (counting bins)
      (codes "19.000000")
      (dump (λ n d. []) bins (codes "19.000000"))
dump-Table_example = dump-Table (λ n d. []) bins (codes "19.000000") bins-Ascending bins-IsSmall

-- An axis of seconds that takes the count for the position.
abbrev taking : BaseAxis Unit Count Unit
taking = record { index = λ axis count. count; update = λ axis count. (tt, tt) }

two_minutes : index taking seconds tt minutes (true, 2) ≡ ok (true, 120)
unfolding index duration_adapter whole_units
two_minutes = refl

index-update-Same_example :
    (index taking seconds tt minutes (true, 2)
      ≡ index taking seconds tt milliseconds (true, 120000))
    × (update taking seconds tt minutes (true, 2)
        ≡ update taking seconds tt milliseconds (true, 120000))
index-update-Same_example =
    index-update-Same taking tt seconds minutes milliseconds true 2 120000 refl
