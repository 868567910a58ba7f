-- ===== src/Histogram/Widths.antt =====
-- The widths of the columns that `dump` of utils/histogram/chrono_axes.hpp takes.
use fb_utils.Prelude.{
  map, ℕ, zero, suc, ◌+◌, ◌*◌, ◌/◌, ◌%◌, ◌≤◌, ◌<◌, ◌≡◌, refl, true, List, [], ◌∷◌, ◌++◌, ltb,
  if◌then◌else◌, Str, show, digits_on, length, length-append, append-nil, append_assoc, All,
  All-append, arith, inl, inr, Bool-cases,
}
use fb_utils.Histogram.Dump.{
  Index, underflow, bin, Bin, Row, Rows, index_text, row_of, with_row, add_row, add_rows, below_999,
  index_width,
}

-- A number of few digits is short.
length-digits_on-step :
    (d n : ℕ)
    → 0 < n
    → ((m fuel : ℕ) → m < n → length (digits_on fuel m) ≤ d)
    → (m fuel : ℕ) → m < 10 * n
    → 1 ≤ suc d
    → length (digits_on fuel m) ≤ suc d
unfolding digits_on
length-digits_on-step d n pos h m zero k one = omega arith
length-digits_on-step d n pos h m (suc fuel) k one = elim (Bool-cases (ltb m 10)) [
  | inl e ↦ rw (e) (omega arith)
  | inr e ↦
      let front = h (m / 10) fuel (omega arith) in
      rw (e) (omega (arith, front, length-append (digits_on fuel (m / 10)) ((48 + m % 10) ∷ [])))
]

one_digit : (m fuel : ℕ) → m < 10 → length (digits_on fuel m) ≤ 1
unfolding digits_on
one_digit m zero h = omega arith
one_digit m (suc fuel) h = let small : ltb m 10 ≡ true = ground arith in rw (small) (omega arith)

three_digits : (m fuel : ℕ) → m < 1000 → length (digits_on fuel m) ≤ 3
three_digits m fuel h =
    length-digits_on-step 2 100 (omega arith)
      (λ m fuel h. length-digits_on-step 1 10 (omega arith) one_digit m fuel h (omega arith)) m fuel
      h (omega arith)

five_digits : (m fuel : ℕ) → m < 100000 → length (digits_on fuel m) ≤ 5
five_digits m fuel h =
    length-digits_on-step 4 10000 (omega arith)
      (λ m fuel h. length-digits_on-step 3 1000 (omega arith) three_digits m fuel h (omega arith)) m
      fuel h (omega arith)

-- No larger index, and an index of at most five digits.
abbrev pub IsAtMost : Index → Index → Type 0
IsAtMost underflow j = Unit
IsAtMost (bin i) underflow = ⊥
IsAtMost (bin i) (bin j) = i ≤ j

abbrev pub IsSmall : Index → Type 0
IsSmall underflow = Unit
IsSmall (bin i) = i < 100000

abbrev width_for : Index → ℕ
width_for i = if below_999 i then 3 else 5

index_text-fits :
    (i last : Index) → IsAtMost i last → IsSmall last → length (index_text i) ≤ width_for last
unfolding show
index_text-fits underflow underflow h k = omega arith
index_text-fits underflow (bin j) h k = ground arith
index_text-fits (bin i) underflow h k = absurd h
index_text-fits (bin i) (bin j) h k = elim (Bool-cases (ltb j 999)) [
  | inl e ↦ rw (e) (three_digits i (suc i) (ground arith))
  | inr e ↦ rw (e) (five_digits i (suc i) (omega arith))
]

-- An index in front of some rows.
in_front-fits :
    (i : Index) (row : Row) (rows : List Row)
    → All (λ r. IsAtMost i r.index) (row ∷ rows)
    → All (λ r. IsSmall r.index) (row ∷ rows)
    → length (index_text i) ≤ index_width (row ∷ rows)
in_front-fits i row [] h k = index_text-fits i row.index h.0 k.0
in_front-fits i row (next ∷ rows) h k = in_front-fits i next rows h.1 k.1

abbrev pub Ascending : List Row → Type 0
Ascending [] = Unit
Ascending (row ∷ rows) = All (λ r. IsAtMost row.index r.index) rows × Ascending rows

IsAtMost-refl : (i : Index) → IsAtMost i i
IsAtMost-refl underflow = tt
IsAtMost-refl (bin i) = omega arith

pub index_width-fits :
    (rows : List Row)
    → Ascending rows
    → All (λ r. IsSmall r.index) rows
    → All (λ r. length (index_text r.index) ≤ index_width rows) rows
index_width-fits [] h k = tt
index_width-fits (row ∷ []) h k =
    (in_front-fits row.index row [] (IsAtMost-refl row.index, tt) k, tt)
index_width-fits (row ∷ next ∷ rows) h k =
    (in_front-fits row.index next rows h.0 k.1, index_width-fits (next ∷ rows) h.1 k.1)

-- The bins that count something.
abbrev pub counting : List Bin → List Bin
counting [] = []
counting (b ∷ bins) = if b.counts then b ∷ counting bins else counting bins

pub add_rows-counting :
    (show_quotient : ℕ → ℕ → Str) (bins : List Bin) (r : Rows)
    → (add_rows show_quotient bins r).rows
      ≡ r.rows ++ map (λ b. row_of show_quotient b) (counting bins)
unfolding add_rows add_row
add_rows-counting show_quotient [] r = rw (append-nil r.rows) refl
add_rows-counting show_quotient (b ∷ bins) r = elim (Bool-cases b.counts) [
  | inl e ↦
      let row = row_of show_quotient b in
      rw (add_rows, e, add_rows-counting show_quotient bins (with_row row r))
        (append_assoc r.rows (row ∷ []) (map (λ b. row_of show_quotient b) (counting bins)))
  | inr e ↦ rw (add_rows, e) (add_rows-counting show_quotient bins r)
]

-- No time is wider than `max_time_width`.
abbrev pub IsWide : Rows → Type 0
IsWide r = All (λ row. length row.time ≤ r.max_time_width) r.rows

wider :
    (rows : List Row) (v w : ℕ)
    → v ≤ w
    → All (λ row. length row.time ≤ v) rows
    → All (λ row. length row.time ≤ w) rows
wider [] v w h k = tt
wider (row ∷ rows) v w h k = (omega (arith, k.0), wider rows v w h k.1)

with_row-IsWide : (row : Row) (r : Rows) → IsWide r → IsWide (with_row row r)
with_row-IsWide row r h =
    let w = (with_row row r).max_time_width in
    All-append (λ row. length row.time ≤ w) r.rows (row ∷ [])
      (wider r.rows r.max_time_width w (ground arith) h) (ground arith, tt)

pub add_rows-IsWide :
    (show_quotient : ℕ → ℕ → Str) (bins : List Bin) (r : Rows)
    → IsWide r
    → IsWide (add_rows show_quotient bins r)
unfolding add_rows add_row
add_rows-IsWide show_quotient [] r h = h
add_rows-IsWide show_quotient (b ∷ bins) r h = elim (Bool-cases b.counts) [
  | inl e ↦
      rw (add_rows, e)
        (add_rows-IsWide show_quotient bins (with_row (row_of show_quotient b) r)
          (with_row-IsWide (row_of show_quotient b) r h))
  | inr e ↦ rw (add_rows, e) (add_rows-IsWide show_quotient bins r h)
]
