-- ===== src/Flags/Names.antt =====
-- The tokens that `to_string` of utils/flags/flags.hpp writes, and what `parse_string` reads in them.
use native.Mathlib.Nat.{mod-eq_of_lt, pow-suc, one-le-pow, pow-le-pow_right}
use fb_utils.Prelude.{
  ℕ, zero, suc, ◌+◌, ◌^◌, ◌≤◌, ◌<◌, ◌≡◌, ◌≢◌, inl, inr, refl, true, false, List, [], ◌∷◌, none,
  some, Str, equal, equal_iff, length, get_elem?, arith, All, Bool-cases, Option-cases,
}
use fb_utils.Flags.Numeric.{IntType}
use fb_utils.Flags.Decimal.{IsDigit, show-Number, parse_numeric-show}
use fb_utils.Flags.{flag_name, index_of, token_value}

-- A name that can be told from a number and has no delimiter.
abbrev pub IsWord : ℕ → Str → Type 0
IsWord delim [] = ⊥
IsWord delim (c ∷ s) = (¬ IsDigit c) × All (λ x. x ≢ delim) (c ∷ s)

abbrev pub IsDistinct : List Str → Type 0
IsDistinct [] = Unit
IsDistinct (s ∷ strings) = All (λ t. s ≢ t) strings × IsDistinct strings

-- The names of the bits of an unsigned type, no more than it has bits.
pub record Names (width delim : ℕ) (strings : List Str) : Type 0 where
  pub few : length strings ≤ width
  pub words : All (IsWord delim) strings
  pub distinct : IsDistinct strings
  pub delim_no_digit : ¬ IsDigit delim

abbrev pub unsigned_type : ℕ → IntType
unsigned_type width = record { width = width; signed = false }

All-get_elem? {κ} :
    (P : Str → Type κ) (i : ℕ) (strings : List Str) {s : Str}
    → All P strings
    → get_elem? strings i ≡ some s
    → P s
All-get_elem? P i [] a h = absurd cc
All-get_elem? P zero (t ∷ strings) {s} (p, a) h = let same : t ≡ s = ground arith in rw (← same) p
All-get_elem? P (suc i) (t ∷ strings) (p, a) h = All-get_elem? P i strings a h

head_eq : {x c : ℕ} {s t : Str} → (x ∷ s) ≡ (c ∷ t) → x ≡ c
head_eq e = ground arith

unequal : (s t : Str) → s ≢ t → equal s t ≡ false
unequal s t h = elim (Bool-cases (equal s t)) [
  | inl e ↦ absurd (h ((equal_iff s t).0 e))
  | inr e ↦ e
]

-- The name of a bit is found at its position.
index_of-get_elem? :
    (k i : ℕ) (strings : List Str) {s : Str}
    → IsDistinct strings
    → get_elem? strings i ≡ some s
    → index_of k strings s ≡ some (k + i)
unfolding index_of
index_of-get_elem? k i [] d h = cc
index_of-get_elem? k zero (t ∷ strings) {s} d h =
    let same : t ≡ s = ground arith in
    let e : equal t s ≡ true = (equal_iff t s).1 same in
    let sum : k + 0 ≡ k = omega arith in rw (e, sum)
index_of-get_elem? k (suc i) (t ∷ strings) {s} (apart, d) h =
    let sum : k + suc i ≡ suc k + i = omega arith in
    rw (unequal t s (All-get_elem? (λ x. t ≢ x) i strings apart h), sum)
      (index_of-get_elem? (suc k) i strings d h)

get_elem?-lt :
    (i : ℕ) (strings : List Str) {s : Str} → get_elem? strings i ≡ some s → i < length strings
get_elem?-lt i [] h = cc
get_elem?-lt zero (t ∷ strings) h = omega arith
get_elem?-lt (suc i) (t ∷ strings) h = omega (arith, get_elem?-lt i strings h)

-- A text that begins with a digit is no name.
index_of-digit :
    (k delim c : ℕ) (text : Str) (strings : List Str)
    → IsDigit c
    → All (IsWord delim) strings
    → index_of k strings (c ∷ text) ≡ none
unfolding index_of
index_of-digit k delim c text [] d w = refl
index_of-digit k delim c text ([] ∷ strings) d (w, ws) = absurd w
index_of-digit k delim c text ((x ∷ s) ∷ strings) d (w, ws) =
    let other : (x ∷ s) ≢ (c ∷ text) = λ e. w.0 (rw (head_eq e) d) in
    rw (unequal (x ∷ s) (c ∷ text) other) (index_of-digit (suc k) delim c text strings d ws)

-- A token: it is not empty, has no delimiter, and stands for a bit.
pub record Token (width delim i : ℕ) (strings : List Str) : Type 0 where
  pub first : ℕ
  pub rest : Str
  pub splits : flag_name strings i ≡ first ∷ rest
  pub clean : All (λ x. x ≢ delim) (first ∷ rest)
  pub stands : token_value (unsigned_type width) strings (first ∷ rest) ≡ some (2 ^ i)

pub two_pow-pos : (i : ℕ) → 0 < 2 ^ i
two_pow-pos i = one-le-pow i 2 (omega arith)

pub two_pow-lt : (i width : ℕ) → i < width → 2 ^ i < 2 ^ width
two_pow-lt i width h = omega (
  arith,
  pow-le-pow_right {n = 2} (omega arith) {i = suc i} {j = width} h,
  pow-suc 2 i,
  two_pow-pos i,
)

named_token :
    (width delim i : ℕ) (strings : List Str) (s : Str)
    → Names width delim strings
    → get_elem? strings i ≡ some s
    → IsWord delim s
    → Token width delim i strings
unfolding token_value
named_token width delim i strings [] n h w = absurd w
named_token width delim i strings (c ∷ s) n h w =
    let low = get_elem?-lt i strings h in
    let sum : 0 + i ≡ i = omega arith in
    record {
      first = c;
      rest = s;
      splits = rw (flag_name, h);
      clean = w.1;
      stands = rw (
        token_value,
        index_of-get_elem? 0 i strings n.distinct h,
        sum,
        mod-eq_of_lt (two_pow-lt i width (omega (arith, n.few))),
      );
    }

IsDigit-clean :
    (delim : ℕ) (text : Str) → ¬ IsDigit delim → All IsDigit text → All (λ x. x ≢ delim) text
IsDigit-clean delim [] h d = tt
IsDigit-clean delim (c ∷ text) h (d, ds) = ((λ e. h (rw (← e) d)), IsDigit-clean delim text h ds)

numbered_token :
    (width delim i : ℕ) (strings : List Str)
    → Names width delim strings
    → get_elem? strings i ≡ none
    → i < width
    → Token width delim i strings
unfolding token_value
numbered_token width delim i strings n h low =
    let t = show-Number (2 ^ i) (two_pow-pos i) in
    let digit : IsDigit t.first = (omega (arith, t.high), t.low) in
    record {
      first = t.first;
      rest = t.rest;
      splits = rw (flag_name, h) t.splits;
      clean = IsDigit-clean delim (t.first ∷ t.rest) n.delim_no_digit (digit, t.digits);
      stands =
          rw (token_value, index_of-digit 0 delim t.first t.rest strings digit n.words)
            (rw (t.splits) at
              (parse_numeric-show width (2 ^ i) (two_pow-pos i) (two_pow-lt i width low)));
    }

pub flag_name-Token :
    (width delim i : ℕ) (strings : List Str)
    → Names width delim strings
    → i < width
    → Token width delim i strings
flag_name-Token width delim i strings n low = elim (Option-cases (get_elem? strings i)) [
  | inl e ↦ numbered_token width delim i strings n e low
  | inr (s, e) ↦
      named_token width delim i strings s n e (All-get_elem? (IsWord delim) i strings n.words e)
]
