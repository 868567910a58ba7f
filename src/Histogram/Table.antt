-- ===== src/Histogram/Table.antt =====
-- What `dump` of utils/histogram/chrono_axes.hpp writes, as a table.
use fb_utils.Prelude.{
  map, ℕ, zero, suc, ◌+◌, ◌-◌, ◌≤◌, ◌≡◌, refl, ap, List, [], ◌∷◌, ◌++◌, Str, codes, show, length,
  All, arith,
}
use fb_utils.Histogram.Time.{readable_time}
use fb_utils.Histogram.Dump.{
  Index, underflow, bin, Bin, Row, Rows, index_text, row_of, blanks, index_width, head, lines,
  text_of_rows, footer, add_rows, dump,
}
use fb_utils.Histogram.Widths.{
  IsAtMost, IsSmall, Ascending, index_width-fits, counting, add_rows-counting, add_rows-IsWide,
}

unfoldable pub spaces : ℕ → Str
spaces zero = []
spaces (suc n) = b' ' ∷ spaces n

abbrev pub index_name : Index → Str
index_name underflow = codes "-1"
index_name (bin i) = show i

module _ (show_quotient : ℕ → ℕ → Str) where
  -- From the lower to the upper bound.
  abbrev pub time_range : Bin → Str
  time_range b =
      readable_time show_quotient b.lower.0 b.lower.1
      ++ b'-' ∷ readable_time show_quotient b.upper.0 b.upper.1

  -- The line of a bin: its index and its bounds stand at the right of columns of these widths, and
  -- its count is behind them.
  pub record IsLine (ix_width time_width : ℕ) (b : Bin) (line : Str) : Type 0 where
    pub before_index : ℕ
    pub before_time : ℕ
    pub index_lem : before_index + length (index_name b.index) ≡ ix_width
    pub time_lem : before_time + length (time_range b) ≡ time_width
    pub line_lem :
        line
        ≡ spaces before_index
          ++ index_name b.index
          ++ codes " : [ "
          ++ (spaces before_time ++ time_range b)
          ++ codes ") : "
          ++ b.value

  -- A line for each bin, in order.
  abbrev pub AreLines : ℕ → ℕ → List Bin → List Str → Type 0
  AreLines ix_width time_width [] [] = Unit
  AreLines ix_width time_width (b ∷ bins) (line ∷ texts) =
      IsLine ix_width time_width b line × AreLines ix_width time_width bins texts
  AreLines ix_width time_width _ _ = ⊥

abbrev pub unlines : List Str → Str
unlines [] = []
unlines (line ∷ texts) = line ++ b'\n' ∷ unlines texts

-- The text for some bins: nothing, or their lines, a rule and the sum.
abbrev pub Table : (ℕ → ℕ → Str) → List Bin → Str → Str → Type 0
Table show_quotient [] sum text = text ≡ []
Table show_quotient (b ∷ bins) sum text =
    (ix_width : ℕ) × (time_width : ℕ) × (texts : List Str) × AreLines show_quotient ix_width
      time_width (b ∷ bins) texts
    × (text ≡ unlines texts ++ (codes "    ---------------\n\t" ++ sum ++ codes "\n"))

-- The indices do not fall.
abbrev pub AscendingBins : List Bin → Type 0
AscendingBins [] = Unit
AscendingBins (b ∷ bins) = All (λ c. IsAtMost b.index c.index) bins × AscendingBins bins

blanks-spaces : (n : ℕ) → blanks n ≡ spaces n
unfolding blanks spaces
blanks-spaces zero = refl
blanks-spaces (suc n) = ap (◌∷◌ b' ') (blanks-spaces n)

index_text-name : (i : Index) → index_text i ≡ index_name i
index_text-name underflow = refl
index_text-name (bin i) = refl

module _ (show_quotient : ℕ → ℕ → Str) where
  rows_of : List Bin → List Row
  rows_of bins = map (λ b. row_of show_quotient b) bins

  line_of : ℕ → ℕ → Bin → Str
  line_of ix_width time_width b = head ix_width time_width (row_of show_quotient b) ++ b.value

  line_of-IsLine :
      (ix_width time_width : ℕ) (b : Bin)
      → length (index_text b.index) ≤ ix_width
      → length (time_range show_quotient b) ≤ time_width
      → IsLine show_quotient ix_width time_width b (line_of ix_width time_width b)
  unfolding line_of head row_of
  line_of-IsLine ix_width time_width b h k = record {
    before_index = ix_width - length (index_name b.index);
    before_time = time_width - length (time_range show_quotient b);
    index_lem = let h0 = rw (index_text-name b.index) at h in omega arith;
    time_lem = omega arith;
    line_lem =
        rw
          (
            index_text-name b.index,
            blanks-spaces (ix_width - length (index_name b.index)),
            blanks-spaces (time_width - length (time_range show_quotient b)),
          )
          refl;
  }

  All-lines :
      (ix_width time_width : ℕ) (bins : List Bin)
      → All (λ row. length (index_text row.index) ≤ ix_width) (rows_of bins)
      → All (λ row. length row.time ≤ time_width) (rows_of bins)
      → AreLines show_quotient ix_width time_width bins (map (line_of ix_width time_width) bins)
  unfolding rows_of row_of
  All-lines ix_width time_width [] h k = tt
  All-lines ix_width time_width (b ∷ bins) h k =
      (line_of-IsLine ix_width time_width b h.0 k.0, All-lines ix_width time_width bins h.1 k.1)

  lines-unlines :
      (ix_width time_width : ℕ) (bins : List Bin)
      → lines ix_width time_width (rows_of bins) ≡ unlines (map (line_of ix_width time_width) bins)
  unfolding lines rows_of row_of line_of
  lines-unlines ix_width time_width [] = refl
  lines-unlines ix_width time_width (b ∷ bins) =
      rw (lines, lines-unlines ix_width time_width bins) refl

  rows_of-All :
      (i : Index) (bins : List Bin)
      → All (λ c. IsAtMost i c.index) bins
      → All (λ row. IsAtMost i row.index) (rows_of bins)
  unfolding rows_of row_of
  rows_of-All i [] h = tt
  rows_of-All i (b ∷ bins) h = (h.0, rows_of-All i bins h.1)

  rows_of-Ascending : (bins : List Bin) → AscendingBins bins → Ascending (rows_of bins)
  unfolding rows_of row_of
  rows_of-Ascending [] h = tt
  rows_of-Ascending (b ∷ bins) h = (rows_of-All b.index bins h.0, rows_of-Ascending bins h.1)

  rows_of-IsSmall :
      (bins : List Bin)
      → All (λ b. IsSmall b.index) bins
      → All (λ row. IsSmall row.index) (rows_of bins)
  unfolding rows_of row_of
  rows_of-IsSmall [] h = tt
  rows_of-IsSmall (b ∷ bins) h = (h.0, rows_of-IsSmall bins h.1)

  text_of_rows-Table :
      (r : Rows) (bins : List Bin) (sum : Str)
      → r.rows ≡ rows_of bins
      → All (λ row. length row.time ≤ r.max_time_width) (rows_of bins)
      → AscendingBins bins
      → All (λ b. IsSmall b.index) bins
      → Table show_quotient bins sum (text_of_rows r sum)
  unfolding text_of_rows rows_of
  text_of_rows-Table r [] sum e wide h k = rw (text_of_rows, e) refl
  text_of_rows-Table r (b ∷ bins) sum e wide h k =
      let ix_width = index_width (rows_of (b ∷ bins)) in
      let fits =
        index_width-fits (rows_of (b ∷ bins)) (rows_of-Ascending (b ∷ bins) h)
          (rows_of-IsSmall (b ∷ bins) k) in
      (
        ix_width,
        r.max_time_width,
        map (line_of ix_width r.max_time_width) (b ∷ bins),
        All-lines ix_width r.max_time_width (b ∷ bins) fits wide,
        rw (text_of_rows, e)
            (ap (λ t. t ++ footer sum) (lines-unlines ix_width r.max_time_width (b ∷ bins))),
      )

-- Where the indices of the bins that count something do not fall and have at most five digits, dump
-- writes nothing if there are none, and otherwise a line for just those bins, in order, then a rule
-- and the sum. In a line there are the index, the bounds from the lower to the upper one, and the
-- count; the indices end in one column and the bounds in another, so that the counts begin in one.
pub dump-Table :
    (show_quotient : ℕ → ℕ → Str) (bins : List Bin) (sum : Str)
    → AscendingBins (counting bins)
    → All (λ b. IsSmall b.index) (counting bins)
    → Table show_quotient (counting bins) sum (dump show_quotient bins sum)
unfolding dump rows_of
dump-Table show_quotient bins sum h k =
    let none_yet : Rows = record { rows = []; max_time_width = 0 } in
    let same = add_rows-counting show_quotient bins none_yet in
    let r = add_rows show_quotient bins none_yet in
    text_of_rows-Table show_quotient r (counting bins) sum same
      (rw (same) at (add_rows-IsWide show_quotient bins none_yet tt)) h k
