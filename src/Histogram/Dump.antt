-- ===== src/Histogram/Dump.antt =====
-- `dump` of utils/histogram/chrono_axes.hpp. The bins and the sum are what Boost.Histogram gives;
-- the stream fills with blanks on the left of a field, as a new one does.
use fb_utils.Prelude.{
  ℕ, zero, suc, ◌-◌, Bool, true, List, [], ◌∷◌, ◌++◌, ltb, if◌then◌else◌, Str, codes, show, length,
}
use fb_utils.Histogram.Time.{readable_time}

-- `ix.index()`: -1 is the bin of what is too small.
pub data Index : Type 0 where
  underflow : Index
  bin : ℕ → Index

-- A bin: its bounds as sign and nanoseconds, whether what it counts is not 0, and the count as a
-- whole number in text.
pub record Bin : Type 0 where
  pub index : Index
  pub lower : Bool × ℕ
  pub upper : Bool × ℕ
  pub counts : Bool
  pub value : Str

pub record Row : Type 0 where
  pub index : Index
  pub time : Str
  pub value : Str

-- The rows so far, and `max_time_width`.
pub record Rows : Type 0 where
  pub rows : List Row
  pub max_time_width : ℕ

abbrev pub index_text : Index → Str
index_text underflow = codes "-1"
index_text (bin i) = show i

-- `rows.emplace_back`, with the width of its time.
abbrev pub with_row : Row → Rows → Rows
with_row row r = record {
  rows = r.rows ++ row ∷ [];
  max_time_width =
      if ltb r.max_time_width (length row.time) then length row.time else r.max_time_width;
}

module _ (show_quotient : ℕ → ℕ → Str) where
  unfoldable pub row_of : Bin → Row
  unfolding readable_time
  row_of b = record {
    index = b.index;
    time =
        readable_time show_quotient b.lower.0 b.lower.1
        ++ b'-' ∷ readable_time show_quotient b.upper.0 b.upper.1;
    value = b.value;
  }

  -- A round of the first loop.
  unfoldable pub add_row : Bin → Rows → Rows
  unfolding row_of
  add_row b r = if b.counts then with_row (row_of b) r else r

  unfoldable pub add_rows : List Bin → Rows → Rows
  unfolding add_row
  add_rows [] r = r
  add_rows (b ∷ bins) r = add_rows bins (add_row b r)

-- `std::setw` for the next field.
unfoldable pub blanks : ℕ → Str
blanks zero = []
blanks (suc n) = b' ' ∷ blanks n

abbrev pub setw : ℕ → Str → Str
setw width text = blanks (width - length text) ++ text

abbrev pub below_999 : Index → Bool
below_999 underflow = true
below_999 (bin i) = ltb i 999

-- `rows.back()`
abbrev pub index_width : List Row → ℕ
index_width [] = 3
index_width (row ∷ []) = if below_999 row.index then 3 else 5
index_width (row ∷ next ∷ rows) = index_width (next ∷ rows)

-- A line in front of the count.
unfoldable pub head : ℕ → ℕ → Row → Str
unfolding blanks
head ix_width max_time_width row =
    setw ix_width (index_text row.index)
    ++ codes " : [ "
    ++ setw max_time_width row.time
    ++ codes ") : "

unfoldable pub lines : ℕ → ℕ → List Row → Str
unfolding head
lines ix_width max_time_width [] = []
lines ix_width max_time_width (row ∷ rows) =
    head ix_width max_time_width row ++ row.value ++ b'\n' ∷ lines ix_width max_time_width rows

abbrev pub footer : Str → Str
footer sum = codes "    ---------------\n\t" ++ sum ++ codes "\n"

-- What is written for some rows.
unfoldable pub text_of_rows : Rows → Str → Str
unfolding lines
text_of_rows r sum = elim r.rows [
  | [] ↦ []
  | row ∷ rows ↦ lines (index_width (row ∷ rows)) r.max_time_width (row ∷ rows) ++ footer sum
]

-- What is written to the stream; `sum` is the sum of all counts in text.
unfoldable pub dump : (ℕ → ℕ → Str) → List Bin → Str → Str
unfolding add_rows text_of_rows
dump show_quotient bins sum =
    text_of_rows (add_rows show_quotient bins (record { rows = []; max_time_width = 0 })) sum
