-- ===== src/ProgramOptions/Chrono/Parsed.antt =====
-- The number and the unit that the grammar of utils/program_options/chrono.hpp reads.
use fb_utils.Prelude.{
  ℕ, ◌≤◌, ◌≡◌, refl, inl, inr, sym, ap, true, [], ◌∷◌, ◌++◌, append_assoc, Option, none, some, Str,
  ◌∙◌, ok, arith, Bool-cases, leb,
}
use fb_utils.Spirit.{
  Spirit, Documented, span, nonempty, is_digit, in_limit, and_then, with_attribute, value_of,
}
use fb_utils.Spirit.Span.{Splits, Stops, span-Splits, span-append}
use fb_utils.Spirit.Longest.{longest-Found}
use fb_utils.Spirit.Numbers.{IsNumber}
use fb_utils.ProgramOptions.Chrono.{
  TimeUnit, Cast, ParsedDuration, units, unit_part, duration, rep_max, post, duration_cast,
}
use fb_utils.ProgramOptions.Chrono.Units.{IsWhole, IsWhole-duration_cast, duration_cast-IsWhole}
use fb_utils.ProgramOptions.Chrono.Forms.{
  Suffix, Converts, Ends, unit_part_lem, unit_read-Suffix, Suffix-unit_read,
}

-- A number and a unit, which is the option's own where none is named; `n` is the number of whole
-- units of the option in them.
pub record DurationForm (to : TimeUnit) (text : Str) (n : ℕ) : Type 0 where
  pub digits : Str
  pub suffix : Str
  pub count : ℕ
  pub unit : TimeUnit
  pub text_lem : text ≡ digits ++ suffix
  pub count_lem : IsNumber rep_max digits count
  pub unit_lem : Suffix to suffix unit
  pub whole_lem : IsWhole to unit count n

pub record Parsed (to : TimeUnit) (text : Str) (p : ParsedDuration) (tail : Str) : Type 0 where
  pub digits : Str
  pub suffix : Str
  pub unit : TimeUnit
  pub text_lem : text ≡ (digits ++ suffix) ++ tail
  pub count_lem : IsNumber rep_max digits p.0
  pub unit_lem : Suffix to suffix unit
  pub cast_lem : Converts to unit p.1

abbrev pub number_read :
    (Str → Option (Cast × Str)) → Option (ℕ × Str) → Option (ParsedDuration × Str)
number_read q m =
    with_attribute (λ p. p) (and_then m (λ n rest. with_attribute (λ cast. (n, cast)) (q rest)))

parse-duration :
    (x : Spirit)
    → Documented x
    → (to : TimeUnit) (text : Str)
    → x.parse (duration x to) text
      ≡ number_read (x.parse (unit_part x to)) (in_limit rep_max (nonempty (span is_digit text)))
unfolding duration
parse-duration x d to text =
    rw
      (
        d.parse-rule (λ p. p) (x.seq (x.uint rep_max) (unit_part x to)) text,
        d.parse-seq (x.uint rep_max) (unit_part x to) text,
        d.parse-uint rep_max text,
      )
      refl

-- What a changed attribute is made from.
with_attribute-cases :
    {A B : Type 0} (f : A → B) (o : Option (A × Str)) (b : B) (rest : Str)
    → with_attribute f o ≡ some (b, rest)
    → (a : A) × (o ≡ some (a, rest)) × (b ≡ f a)
with_attribute-cases f none b rest e = absurd cc
with_attribute-cases f (some (a, r)) b rest e = let left : r ≡ rest = cc in rw (left) (a, refl, cc)

pub Splits-Parsed :
    (x : Spirit)
    → Documented x
    → (to : TimeUnit) (text : Str) (s : Str × Str) (p : ParsedDuration) (tail : Str)
    → Splits is_digit text s.0 s.1
    → number_read (x.parse (unit_part x to)) (in_limit rep_max (nonempty s)) ≡ some (p, tail)
    → Parsed to text p tail
Splits-Parsed x d to text ([], rest) p tail h e = absurd cc
Splits-Parsed x d to text (c ∷ front, rest) p tail h e =
    elim (Bool-cases (leb (value_of 0 (c ∷ front)) rep_max)) [
      | inl l ↦
          let e0 = rw (l) at e in
          let (p0, e1, same0) = with_attribute-cases (λ p. p) _ p tail e0 in
          let (cast, e2, same) =
            with_attribute-cases (λ cast. (value_of 0 (c ∷ front), cast)) _ p0 tail e1 in
          let (suffix, unit, split, h1, h2) =
            unit_read-Suffix to rest _ cast tail (λ n u. longest-Found units rest n u)
              (rw (unit_part_lem x d to rest) at e2) in
          rw (same0, same)
            (record {
              digits = c ∷ front;
              suffix = suffix;
              unit = unit;
              text_lem =
                  h.text_lem
                  ∙ ap (λ rest. (c ∷ front) ++ rest) split
                  ∙ sym (append_assoc (c ∷ front) suffix tail);
              count_lem = (omega arith, h.front_lem, refl, ground arith);
              unit_lem = h1;
              cast_lem = h2;
            })
      | inr l ↦ let e0 = rw (l) at e in absurd cc
    ]

DurationForm-number_read :
    (x : Spirit)
    → Documented x
    → (to : TimeUnit) (n : ℕ) (digits suffix tail : Str) (count : ℕ) (unit : TimeUnit)
    → IsNumber rep_max digits count
    → Suffix to suffix unit
    → IsWhole to unit count n
    → Ends tail
    → (p : ParsedDuration) × (number_read
          (x.parse (unit_part x to))
          (in_limit rep_max (nonempty (digits, suffix ++ tail)))
        ≡ some (p, tail))
      × (post p ≡ ok n)
      × Stops is_digit (suffix ++ tail)
DurationForm-number_read x d to n [] suffix tail count unit h k w end = absurd (omega (arith, h.0))
DurationForm-number_read x d to n (c ∷ digits) suffix tail count unit h k w end =
    let (cast, e, converts, stops) = Suffix-unit_read to suffix unit tail k end in
    let value : value_of 0 (c ∷ digits) ≡ count = h.2 in
    let bound : count ≤ rep_max = h.3 in
    let l : leb count rep_max ≡ true = ground arith in
    (
      (count, cast),
      rw (value, l, unit_part_lem x d to (suffix ++ tail), e) refl,
      converts count bound ∙ IsWhole-duration_cast to unit count n bound w,
      stops,
    )

-- What the grammar reads is a duration, and what is left is behind it.
pub parse-DurationForm :
    (x : Spirit)
    → Documented x
    → (to : TimeUnit) (text : Str) (p : ParsedDuration) (tail : Str) (n : ℕ)
    → x.parse (duration x to) text ≡ some (p, tail)
    → post p ≡ ok n
    → (front : Str) × (text ≡ front ++ tail) × DurationForm to front n
parse-DurationForm x d to text p tail n e k =
    let h =
      Splits-Parsed x d to text (span is_digit text) p tail (span-Splits is_digit text)
        (rw (parse-duration x d to text) at e) in
    let casts : duration_cast to h.unit p.0 ≡ ok n = sym (h.cast_lem p.0 h.count_lem.3) ∙ k in
    (
      h.digits ++ h.suffix,
      h.text_lem,
      record {
        digits = h.digits;
        suffix = h.suffix;
        count = p.0;
        unit = h.unit;
        text_lem = refl;
        count_lem = h.count_lem;
        unit_lem = h.unit_lem;
        whole_lem = duration_cast-IsWhole to h.unit p.0 n h.count_lem.3 casts;
      },
    )

-- A duration is read where the end or a comma is behind it.
pub DurationForm-parse :
    (x : Spirit)
    → Documented x
    → (to : TimeUnit) (front tail : Str) (n : ℕ) → DurationForm to front n
    → Ends tail
    → (p : ParsedDuration) × (x.parse (duration x to) (front ++ tail) ≡ some (p, tail))
      × (post p ≡ ok n)
DurationForm-parse x d to front tail n h end =
    let (p, e, k, stops) =
      DurationForm-number_read x d to n h.digits h.suffix tail h.count h.unit h.count_lem h.unit_lem
        h.whole_lem end in
    (
      p,
      rw
          (
            parse-duration x d to (front ++ tail),
            h.text_lem,
            append_assoc h.digits h.suffix tail,
            span-append is_digit h.digits (h.suffix ++ tail) h.count_lem.1 stops,
          )
          e,
      k,
    )
