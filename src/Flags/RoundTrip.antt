-- ===== src/Flags/RoundTrip.antt =====
-- `from_string` reads what `to_string` of utils/flags/flags.hpp has written.
use native.Mathlib.Nat.{pow-suc}
use fb_utils.Prelude.{
  ℕ, zero, suc, ◌+◌, ◌-◌, ◌*◌, ◌/◌, ◌%◌, ◌^◌, ◌<◌, ◌≡◌, ◌≢◌, refl, ap, true, false, List, [], ◌∷◌,
  ◌++◌, append-nil, some, ltb, ◌==◌, Str, length, length-append, take-length-append, ok, arith, All,
  Bool-cases, inl, inr,
}
use fb_utils.Flags.Bits.{bit_or-two_pow}
use fb_utils.Flags.Names.{Names, unsigned_type, Token, flag_name-Token}
use fb_utils.Flags.{
  flag_name, flags_from, pop_back, to_string, break_at, merge, with_bits, parse_from, parse_string,
  from_string,
}

break_at-clean :
    (delim : ℕ) (text : Str) → All (λ x. x ≢ delim) text → break_at delim text ≡ (text, [])
unfolding break_at
break_at-clean delim [] h = refl
break_at-clean delim (c ∷ text) (n, h) =
    let other : (c == delim) ≡ false = ground arith in rw (other, break_at-clean delim text h)

break_at-delim :
    (delim : ℕ) (text rest : Str)
    → All (λ x. x ≢ delim) text
    → break_at delim (text ++ delim ∷ rest) ≡ (text, delim ∷ rest)
unfolding break_at
break_at-delim delim [] rest h = let same : (delim == delim) ≡ true = ground arith in rw (same)
break_at-delim delim (c ∷ text) rest (n, h) =
    let other : (c == delim) ≡ false = ground arith in rw (other, break_at-delim delim text rest h)

joined :
    (delim : ℕ) (token text : Str)
    → (token ++ delim ∷ []) ++ (text ++ delim ∷ []) ≡ (token ++ delim ∷ text) ++ delim ∷ []
joined delim [] text = refl
joined delim (c ∷ token) text = ap (◌∷◌ c) (joined delim token text)

-- The weight of a bit, and of the next.
scaled : (value i : ℕ) → value * 2 ^ suc i ≡ value * 2 * 2 ^ i
scaled value i = omega (arith, ap (λ (t : ℕ). value * t) (pow-suc 2 i))

module _ (width delim : ℕ) (strings : List Str) (n : Names width delim strings) where
  -- The text of the bits from `i` on, without its last delimiter, and what is read in it.
  pub record Reads (i value : ℕ) (text : Str) : Type 0 where
    pub first : ℕ
    pub rest : Str
    pub splits : text ≡ (first ∷ rest) ++ delim ∷ []
    pub reads :
        (fuel res : ℕ)
        → res < 2 ^ i
        → length (first ∷ rest) < fuel
        → parse_from fuel (unsigned_type width) strings delim res (first ∷ rest)
          ≡ ok (res + value * 2 ^ i, [])

  -- The token of bit `i` adds the bit.
  merge-token :
      (i res : ℕ) (t : Token width delim i strings)
      → res < 2 ^ i
      → merge (unsigned_type width) strings res (t.first ∷ t.rest) ≡ some (res + 2 ^ i)
  merge-token i res t low = rw (merge, t.stands, with_bits, bit_or-two_pow res i low)

  -- The round of the last token.
  parse_last :
      (fuel i res : ℕ) (t : Token width delim i strings)
      → res < 2 ^ i
      → length (t.first ∷ t.rest) < fuel
      → parse_from fuel (unsigned_type width) strings delim res (t.first ∷ t.rest)
        ≡ ok (res + 1 * 2 ^ i, [])
  unfolding parse_from
  parse_last zero i res t low h = absurd (omega arith)
  parse_last (suc fuel) i res t low h =
      let one : 1 * 2 ^ i ≡ 2 ^ i = omega arith in
      rw (parse_from, break_at-clean delim (t.first ∷ t.rest) t.clean, merge-token i res t low, one)

  -- The round of a token with others behind it.
  parse_more :
      (fuel i res value : ℕ) (text : Str) (t : Token width delim i strings)
      (r : Reads (suc i) value text)
      → res < 2 ^ i
      → length (t.first ∷ (t.rest ++ delim ∷ r.first ∷ r.rest)) < fuel
      → parse_from fuel
          (unsigned_type width)
          strings
          delim
          res
          ((t.first ∷ t.rest) ++ delim ∷ r.first ∷ r.rest)
        ≡ ok (res + (value * 2 + 1) * 2 ^ i, [])
  unfolding parse_from
  parse_more zero i res value text t r low h = absurd (omega arith)
  parse_more (suc fuel) i res value text t r low h =
      let shorter : length (r.first ∷ r.rest) < fuel =
        omega (arith, length-append t.rest (delim ∷ r.first ∷ r.rest)) in
      let sum : res + 2 ^ i + value * 2 ^ suc i ≡ res + (value * 2 + 1) * 2 ^ i =
        omega (arith, scaled value i) in
      rw (
        parse_from,
        break_at-delim delim (t.first ∷ t.rest) (r.first ∷ r.rest) t.clean,
        merge-token i res t low,
        r.reads fuel (res + 2 ^ i) (omega (arith, pow-suc 2 i)) shorter,
        sum,
      )

  last-Reads : (i : ℕ) → i < width → Reads i 1 (flag_name strings i ++ delim ∷ [])
  last-Reads i low =
      let t = flag_name-Token width delim i strings n low in
      record {
        first = t.first;
        rest = t.rest;
        splits = rw (t.splits);
        reads = λ fuel res. parse_last fuel i res t;
      }

  more-Reads :
      (i value : ℕ) (text : Str)
      → i < width
      → Reads (suc i) value text
      → Reads i (value * 2 + 1) ((flag_name strings i ++ delim ∷ []) ++ text)
  more-Reads i value text low r =
      let t = flag_name-Token width delim i strings n low in
      record {
        first = t.first;
        rest = t.rest ++ delim ∷ r.first ∷ r.rest;
        splits = rw (t.splits, r.splits) (joined delim (t.first ∷ t.rest) (r.first ∷ r.rest));
        reads = λ fuel res. parse_more fuel i res value text t r;
      }

  -- A bit that is not set.
  none-Reads : (i value : ℕ) (text : Str) → Reads (suc i) value text → Reads i (value * 2) text
  none-Reads i value text r = record {
    first = r.first;
    rest = r.rest;
    splits = r.splits;
    reads =
        λ fuel res low h. (rw (← scaled value i) (r.reads fuel res (omega (arith, pow-suc 2 i)) h));
  }

  flags_from-zero : (k i : ℕ) → flags_from k strings delim i 0 ≡ []
  unfolding flags_from
  flags_from-zero zero i = refl
  flags_from-zero (suc k) i = refl

  pub flags_from-Reads :
      (k i value : ℕ)
      → k + i ≡ width
      → value ≢ 0
      → value < 2 ^ k
      → Reads i value (flags_from k strings delim i value)
  unfolding flags_from
  flags_from-Reads zero i value sum some_bit fits = absurd (some_bit (omega arith))
  flags_from-Reads (suc k) i value sum some_bit fits = elim (Bool-cases (value % 2 == 1)) [
    | inl odd ↦
        let one_bit : value % 2 ≡ 1 = ground arith in
        let nonzero : (value == 0) ≡ false = ground arith in
        let parts : value / 2 * 2 + 1 ≡ value = omega arith in
        elim (Bool-cases (value / 2 == 0)) [
          | inl last ↦
              let none_left : value / 2 ≡ 0 = ground arith in
              let one : value ≡ 1 = omega arith in
              rw (nonzero, odd, none_left, flags_from-zero k (suc i), append-nil, one)
                (last-Reads i (omega arith))
          | inr more ↦
              let half : value / 2 ≢ 0 = ground arith in
              rw (nonzero, odd)
                (rw (parts) at (
                  more-Reads i (value / 2) _ (omega arith) (
                    flags_from-Reads k (suc i) (value / 2) (omega arith) half
                      (omega (arith, pow-suc 2 k)))))
        ]
    | inr even ↦
        let no_bit : value % 2 ≡ 0 = ground arith in
        let nonzero : (value == 0) ≡ false = ground arith in
        let parts : value / 2 * 2 ≡ value = omega arith in
        let half : value / 2 ≢ 0 = λ e. some_bit (omega arith) in
        rw (nonzero, even)
          (rw (parts) at (
            none-Reads i (value / 2) _ (
              flags_from-Reads k (suc i) (value / 2) (omega arith) half
                (omega (arith, pow-suc 2 k)))))
  ]

pop_back-append : (text : Str) (c : ℕ) → pop_back (text ++ c ∷ []) ≡ text
pop_back-append text c =
    let shorter : length (text ++ c ∷ []) - 1 ≡ length text =
      omega (arith, length-append text (c ∷ [])) in
    rw (shorter) (take-length-append text (c ∷ []))

-- What is written in an unsigned type, with names that are distinct, can be told from numbers and
-- have no delimiter, is read back.
pub from_string-to_string :
    (width delim : ℕ) (strings : List Str) (value : ℕ)
    → Names width delim strings
    → value < 2 ^ width
    → from_string
        (unsigned_type width)
        strings
        delim
        (to_string (unsigned_type width) value strings delim)
      ≡ ok value
unfolding from_string parse_string to_string parse_from break_at
from_string-to_string width delim strings value n fits = elim (Bool-cases (value == 0)) [
  | inl e ↦
      let nothing : value ≡ 0 = ground arith in
      let few : ltb width (length strings) ≡ false = ground (arith, n.few) in
      let empty : flags_from width strings delim 0 value ≡ [] =
        rw (nothing) (flags_from-zero width delim strings n width 0) in
      rw (empty, few, parse_from, break_at, nothing)
  | inr e ↦
      let r =
        flags_from-Reads width delim strings n width 0 value (omega arith) (ground arith) fits in
      let few : ltb width (length strings) ≡ false = ground (arith, n.few) in
      let bits : 0 + value * 2 ^ 0 ≡ value = omega arith in
      rw (
        r.splits,
        pop_back-append (r.first ∷ r.rest) delim,
        few,
        r.reads (suc (length (r.first ∷ r.rest))) 0 (omega arith) (omega arith),
        bits,
      )
]
