-- ===== src/ProgramOptions/LogSettings/Sections.antt =====
-- What utils/program_options/log.cpp reads in front of the last part of a setting's name.
use fb_utils.Prelude.{
  ℕ, ◌≤◌, ◌≡◌, refl, sym, ap, inl, inr, true, [], ◌∷◌, ◌++◌, Option, none, some, ◌∙◌, Str, leb,
  length, drop, starts_with, codes, if◌then◌else◌, arith, Bool-cases, append_assoc,
}
use fb_utils.Spirit.{
  Spirit, Documented, span, nonempty, is_digit, in_limit, value_of, and_then, or_else,
  with_attribute,
}
use fb_utils.Spirit.Span.{Splits, span-Splits, span-append}
use fb_utils.Spirit.Numbers.{IsNumber}
use fb_utils.Spirit.Longest.{starts_with-append}
use fb_utils.ProgramOptions.LogSettings.{uint_max, sink}

-- `Core.` or `Sinks.`, a number and a dot.
pub data Section : Str → Type 0 where
  core : Section (codes "Core.")
  sinks :
      (digits : Str) (n : ℕ)
      → IsNumber uint_max digits n
      → Section (codes "Sinks." ++ digits ++ codes ".")

-- A text behind a section.
abbrev pub Behind : Str → Str → Type 0
Behind name rest = (front : Str) × Section front × (name ≡ front ++ rest)

-- What the number and the dot read, the second with `q`.
abbrev sink_read : (Str → Option {0} (Unit × Str)) → Option (ℕ × Str) → Option {0} (Unit × Str)
sink_read q m =
    with_attribute {A = ℕ × Unit {0}} (λ _. tt)
      (and_then m (λ n rest. with_attribute {A = Unit {0}} (λ b. (n, b)) (q rest)))

forgotten :
    (n : ℕ) (o : Option {0} (Unit × Str))
    → with_attribute {A = ℕ × Unit {0}} (λ _. tt) (with_attribute {A = Unit {0}} (λ b. (n, b)) o)
      ≡ o
forgotten n none = refl
forgotten n (some (u, rest)) = refl

sink_lem :
    (x : Spirit)
    → Documented x
    → (name : Str)
    → x.parse (sink x) name ≡ (
        if starts_with name (codes "Sinks.")
        then sink_read
            (x.parse (x.lit (codes ".")))
            (in_limit uint_max (nonempty (span is_digit (drop 6 name))))
        else none)
unfolding sink
sink_lem x d name = elim (Bool-cases (starts_with name (codes "Sinks."))) [
  | inl e ↦
      rw
        (
          d.parse-rule (λ _. tt) _ name,
          d.parse-then _ _ name,
          d.parse-lit (codes "Sinks.") name,
          e,
          d.parse-seq (x.uint uint_max) _ (drop 6 name),
          d.parse-uint uint_max (drop 6 name),
        )
        refl
  | inr e ↦
      rw
        (d.parse-rule (λ _. tt) _ name, d.parse-then _ _ name, d.parse-lit (codes "Sinks.") name, e)
        refl
]

abbrev pub literal : Str → Str → Option {0} (Unit × Str)
literal text front = if starts_with text front then some (tt, drop (length front) text) else none

literal-append :
    (text front rest : Str) → literal text front ≡ some (tt, rest) → text ≡ front ++ rest
literal-append text front rest e = elim (Bool-cases (starts_with text front)) [
  | inl l ↦
      let e0 = rw (l) at e in
      let end : drop (length front) text ≡ rest = cc in rw (← end) (starts_with-append text front l)
  | inr l ↦ let e0 = rw (l) at e in absurd cc
]

Splits-Behind :
    (x : Spirit)
    → Documented x
    → (t : Str) (s : Str × Str) (rest : Str) → Splits is_digit t s.0 s.1
    → sink_read (x.parse (x.lit (codes "."))) (in_limit uint_max (nonempty s)) ≡ some (tt, rest)
    → Behind (codes "Sinks." ++ t) rest
Splits-Behind x d t ([], r) rest h e = absurd cc
Splits-Behind x d t (c ∷ digits, r) rest h e =
    elim (Bool-cases (leb (value_of 0 (c ∷ digits)) uint_max)) [
      | inl l ↦
          let e0 = rw (l) at e in
          let e1 =
            rw
              (
                forgotten (value_of 0 (c ∷ digits)) (x.parse (x.lit (codes ".")) r),
                d.parse-lit (codes ".") r,
              )
              at e0 in
          let r_lem : r ≡ codes "." ++ rest = literal-append r (codes ".") rest e1 in
          (
            codes "Sinks." ++ (c ∷ digits) ++ codes ".",
            sinks (c ∷ digits) (value_of 0 (c ∷ digits))
                (omega arith, h.front_lem, refl, ground arith),
            ap (λ text. codes "Sinks." ++ text)
                (h.text_lem
                  ∙ ap (λ text. (c ∷ digits) ++ text) r_lem
                  ∙ sym (append_assoc (c ∷ digits) (codes ".") rest)),
          )
      | inr l ↦ let e0 = rw (l) at e in absurd cc
    ]

sink-Behind :
    (x : Spirit)
    → Documented x
    → (name rest : Str) → x.parse (sink x) name ≡ some (tt, rest)
    → Behind name rest
sink-Behind x d name rest h = elim (Bool-cases (starts_with name (codes "Sinks."))) [
  | inl e ↦
      let h0 = rw (sink_lem x d name, e) at h in
      rw (starts_with-append name (codes "Sinks.") e) (
        Splits-Behind x d (drop 6 name) (span is_digit (drop 6 name)) rest
          (span-Splits is_digit (drop 6 name)) h0)
  | inr e ↦ let h0 = rw (sink_lem x d name, e) at h in absurd cc
]

core-Behind : (name rest : Str) → literal name (codes "Core.") ≡ some (tt, rest) → Behind name rest
core-Behind name rest h = (codes "Core.", core, literal-append name (codes "Core.") rest h)

pub front-Behind :
    (x : Spirit)
    → Documented x
    → (name rest : Str) (o : Option {0} (Unit × Str)) → x.parse (sink x) name ≡ o
    → or_else o (literal name (codes "Core.")) ≡ some (tt, rest)
    → Behind name rest
front-Behind x d name rest none e h = core-Behind name rest h
front-Behind x d name rest (some (u, r)) e h = sink-Behind x d name rest (e ∙ h)

sink_digits :
    (x : Spirit)
    → Documented x
    → (digits rest : Str) (n : ℕ) → IsNumber uint_max digits n
    → sink_read
        (x.parse (x.lit (codes ".")))
        (in_limit uint_max (nonempty (digits, codes "." ++ rest)))
      ≡ some (tt, rest)
sink_digits x d [] rest n h = absurd (omega (arith, h.0))
sink_digits x d (c ∷ digits) rest n h =
    let value : value_of 0 (c ∷ digits) ≡ n = h.2 in
    let bound : n ≤ uint_max = h.3 in
    let l : leb n uint_max ≡ true = ground arith in
    rw
      (
        value,
        l,
        forgotten n (x.parse (x.lit (codes ".")) (codes "." ++ rest)),
        d.parse-lit (codes ".") (codes "." ++ rest),
      )
      refl

pub front_reads :
    (x : Spirit)
    → Documented x
    → (front rest : Str) → Section front
    → or_else (x.parse (sink x) (front ++ rest)) (literal (front ++ rest) (codes "Core."))
      ≡ some (tt, rest)
front_reads x d front rest core = rw (sink_lem x d (codes "Core." ++ rest)) refl
front_reads x d front rest (sinks digits n h) =
    rw
      (
        sink_lem x d (codes "Sinks." ++ (digits ++ codes ".") ++ rest),
        append_assoc digits (codes ".") rest,
        span-append is_digit digits (codes "." ++ rest) h.1 refl,
        sink_digits x d digits rest n h,
      )
      refl
