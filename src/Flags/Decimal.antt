-- ===== src/Flags/Decimal.antt =====
-- A number that utils/flags/flags.hpp writes in decimal is read back.
use fb_utils.Prelude.{
  ℕ, zero, suc, ◌+◌, ◌*◌, ◌/◌, ◌%◌, ◌^◌, ◌≤◌, ◌<◌, ◌≡◌, inl, inr, refl, ap, true, false, [], ◌∷◌,
  ◌++◌, Option, none, some, ltb, Str, digits_on, show, arith, All, All-append, Bool-cases,
}
use fb_utils.Flags.Numeric.{digit, number_from, from_chars, parse_numeric, ◌>>=◌}

abbrev pub IsDigit : ℕ → Type 0
IsDigit c = (48 ≤ c) × (c ≤ 57)

digit_lem : (d : ℕ) → d < 10 → digit 10 (48 + d) ≡ some d
digit_lem d h = ground arith

abbrev then_digit : ℕ → Option ℕ → Option ℕ
then_digit d none = none
then_digit d (some v) = some (v * 10 + d)

bind-then_digit :
    (d : ℕ) (o : Option ℕ) (f g : ℕ → Option ℕ)
    → ((a : ℕ) → f a ≡ then_digit d (g a))
    → (o >>= f) ≡ then_digit d (o >>= g)
bind-then_digit d none f g h = refl
bind-then_digit d (some a) f g h = h a

number_from-append :
    (value : ℕ) (text : Str) (d : ℕ)
    → d < 10
    → number_from 10 value (text ++ (48 + d) ∷ []) ≡ then_digit d (number_from 10 value text)
unfolding number_from
number_from-append value [] d h = rw (digit_lem d h)
number_from-append value (c ∷ text) d h =
    bind-then_digit d (digit 10 c) _ _ (λ a. number_from-append (value * 10 + a) text d h)

one_digit : (n : ℕ) → n < 10 → number_from 10 0 ((48 + n % 10) ∷ []) ≡ some n
unfolding number_from
one_digit n h =
    let value : 0 * 10 + n % 10 ≡ n = ground arith in rw (digit_lem (n % 10) (omega arith), value)

-- The digits are read back as the number.
number_from-digits_on : (fuel n : ℕ) → n ≤ fuel → number_from 10 0 (digits_on (suc fuel) n) ≡ some n
unfolding digits_on
number_from-digits_on zero n h =
    let small : ltb n 10 ≡ true = ground arith in rw (small) (one_digit n (omega arith))
number_from-digits_on (suc fuel) n h = elim (Bool-cases (ltb n 10)) [
  | inl e ↦ rw (e) (one_digit n (ground arith))
  | inr e ↦
      let large : 10 ≤ n = ground arith in
      let value : n / 10 * 10 + n % 10 ≡ n = omega arith in
      rw (
        e,
        number_from-append 0 (digits_on (suc fuel) (n / 10)) (n % 10) (omega arith),
        number_from-digits_on fuel (n / 10) (omega arith),
        value,
      )
]

-- There is a first digit, which is not 0, and digits follow.
pub record Number (text : Str) : Type 0 where
  pub first : ℕ
  pub rest : Str
  pub splits : text ≡ first ∷ rest
  pub high : 49 ≤ first
  pub low : first ≤ 57
  pub digits : All IsDigit rest

Number-one : (n : ℕ) → 0 < n → n < 10 → Number ((48 + n % 10) ∷ [])
Number-one n pos h = record {
  first = 48 + n % 10;
  rest = [];
  splits = refl;
  high = ground arith;
  low = omega arith;
  digits = tt;
}

Number-append : (text : Str) (d : ℕ) → Number text → d < 10 → Number (text ++ (48 + d) ∷ [])
Number-append text d t h = record {
  first = t.first;
  rest = t.rest ++ (48 + d) ∷ [];
  splits = ap (λ x. x ++ (48 + d) ∷ []) t.splits;
  high = t.high;
  low = t.low;
  digits = All-append IsDigit t.rest ((48 + d) ∷ []) t.digits ((omega arith, omega arith), tt);
}

digits_on-Number : (fuel n : ℕ) → 0 < n → n ≤ fuel → Number (digits_on (suc fuel) n)
unfolding digits_on
digits_on-Number zero n pos h = absurd (omega arith)
digits_on-Number (suc fuel) n pos h = elim (Bool-cases (ltb n 10)) [
  | inl e ↦ rw (e) (Number-one n pos (ground arith))
  | inr e ↦
      let large : 10 ≤ n = ground arith in
      rw (e) (
        Number-append (digits_on (suc fuel) (n / 10)) (n % 10)
          (digits_on-Number fuel (n / 10) (omega arith) (omega arith)) (omega arith))
]

pub show-Number : (n : ℕ) → 0 < n → Number (show n)
unfolding show
show-Number n pos = digits_on-Number n n pos (omega arith)

-- In an unsigned type that has the number, it is read.
pub parse_numeric-show :
    (width n : ℕ)
    → 0 < n
    → n < 2 ^ width
    → parse_numeric (record { width = width; signed = false }) (show n) ≡ some n
unfolding parse_numeric from_chars show
parse_numeric-show width n pos fits =
    let t = show-Number n pos in
    let read : number_from 10 0 (show n) ≡ some n = number_from-digits_on n n (omega arith) in
    rw (t.splits) (ground (arith, (rw (t.splits) at read), t.high))
