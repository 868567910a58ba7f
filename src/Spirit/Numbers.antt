-- ===== src/Spirit/Numbers.antt =====
-- Which texts `x3::uint_parser` takes as a whole.
use fb_utils.Prelude.{
  ℕ, ◌<◌, ◌≤◌, ◌≡◌, ◌↔◌, refl, inl, inr, true, [], ◌∷◌, some, append-nil, Str, All, leb, length,
  arith, Bool-cases,
}
use fb_utils.Spirit.{whole, span, nonempty, is_digit, in_limit, value_of}
use fb_utils.Spirit.Span.{Splits, span-Splits, span_whole}

-- A decimal number up to the limit.
abbrev pub IsNumber : ℕ → Str → ℕ → Type 0
IsNumber limit text n =
    (0 < length text) × All (λ c. is_digit c ≡ true) text × (value_of 0 text ≡ n) × (n ≤ limit)

whole-IsNumber :
    (limit : ℕ) (text digits rest : Str) (n : ℕ)
    → 0 < length digits
    → leb (value_of 0 digits) limit ≡ true
    → Splits is_digit text digits rest
    → whole (some (value_of 0 digits, rest)) ≡ some n
    → IsNumber limit text n
whole-IsNumber limit text digits [] n k l h e =
    let same : text ≡ digits = rw (append-nil digits) at h.text_lem in
    let value : value_of 0 digits ≡ n = cc in rw (same) (k, h.front_lem, value, ground arith)
whole-IsNumber limit text digits (b ∷ rest) n k l h e = absurd cc

in_limit-Splits :
    (limit : ℕ) (text : Str) (s : Str × Str) (n : ℕ)
    → Splits is_digit text s.0 s.1
    → whole (in_limit limit (nonempty s)) ≡ some n
    → IsNumber limit text n
in_limit-Splits limit text ([], rest) n h e = absurd cc
in_limit-Splits limit text (c ∷ front, rest) n h e =
    elim (Bool-cases (leb (value_of 0 (c ∷ front)) limit)) [
      | inl l ↦ whole-IsNumber limit text (c ∷ front) rest n (omega arith) l h (rw (l) at e)
      | inr l ↦ let e0 = rw (l) at e in absurd cc
    ]

in_limit-digits :
    (limit : ℕ) (text : Str)
    → 0 < length text
    → leb (value_of 0 text) limit ≡ true
    → whole (in_limit limit (nonempty (text, []))) ≡ some (value_of 0 text)
in_limit-digits limit [] k l = absurd (omega arith)
in_limit-digits limit (c ∷ text) k l = rw (l) refl

pub whole-in_limit_iff :
    (limit : ℕ) (text : Str) (n : ℕ)
    → (whole (in_limit limit (nonempty (span is_digit text))) ≡ some n) ↔ IsNumber limit text n
whole-in_limit_iff limit text n = (
  in_limit-Splits limit text (span is_digit text) n (span-Splits is_digit text),
  λ h.
      let value : value_of 0 text ≡ n = h.2 in
      let bound : n ≤ limit = h.3 in
      let l : leb (value_of 0 text) limit ≡ true = ground arith in
      rw (span_whole is_digit text h.1, ← value) (in_limit-digits limit text h.0 l),
)
