-- ===== src/ProgramOptions/LogSettings/Named.antt =====
-- Which names utils/program_options/log.cpp takes for settings.
use fb_utils.Prelude.{
  ◌<◌, ◌≡◌, ◌≢◌, ◌↔◌, refl, true, not, [], ◌∷◌, ◌++◌, Option, none, some, append-nil, Str, All,
  ◌==◌, length, codes, arith,
}
use fb_utils.Spirit.{Spirit, Documented, whole, span, nonempty, and_then, or_else}
use fb_utils.Spirit.Span.{Splits, span-Splits, span_whole, All-except, except-All}
use fb_utils.ProgramOptions.LogSettings.{dot, sink, setting, is_setting, is_some}
use fb_utils.ProgramOptions.LogSettings.Sections.{Section, literal, front-Behind, front_reads}

-- The last part of a name.
abbrev pub IsPart : Str → Type 0
IsPart part = (0 < length part) × All (λ c. c ≢ dot) part

pub record IsSetting (name : Str) : Type 0 where
  pub front : Str
  pub part : Str
  pub name_lem : name ≡ front ++ part
  pub front_lem : Section front
  pub part_lem : IsPart part

-- What the last part reads.
Splits-IsPart :
    (rest part : Str) (s : Str × Str)
    → Splits (λ c. not (c == dot)) rest s.0 s.1
    → whole (nonempty s) ≡ some part
    → (rest ≡ part) × IsPart part
Splits-IsPart rest part ([], end) h e = absurd cc
Splits-IsPart rest part (c ∷ front, b ∷ end) h e = absurd cc
Splits-IsPart rest part (c ∷ front, []) h e =
    let same : c ∷ front ≡ part = cc in
    let text : rest ≡ c ∷ front = rw (append-nil (c ∷ front)) at h.text_lem in
    rw (← same) (text, (omega arith, All-except dot (c ∷ front) h.front_lem))

whole_part :
    (part : Str) → IsPart part → whole (nonempty (span (λ c. not (c == dot)) part)) ≡ some part
whole_part [] h = absurd (omega (arith, h.0))
whole_part (c ∷ part) h =
    rw (span_whole (λ c. not (c == dot)) (c ∷ part) (except-All dot (c ∷ part) h.1)) refl

parse-setting :
    (x : Spirit)
    → Documented x
    → (name : Str)
    → x.parse (setting x) name
      ≡ and_then
          (or_else (x.parse (sink x) name) (literal name (codes "Core.")))
          (λ _ rest. x.parse (x.chars_except dot) rest)
unfolding setting
parse-setting x d name =
    rw
      (
        d.parse-then _ (x.chars_except dot) name,
        d.parse-alt (sink x) _ name,
        d.parse-lit (codes "Core.") name,
      )
      refl

abbrev setting_read : (Str → Option (Str × Str)) → Option {0} (Unit × Str) → Option (Str × Str)
setting_read q o = and_then o (λ _ rest. q rest)

some-exists : {A : Type 0} (o : Option A) → is_some o ≡ true → (a : A) × (o ≡ some a)
some-exists none e = absurd cc
some-exists (some a) e = (a, refl)

setting_read-IsSetting :
    (x : Spirit)
    → Documented x
    → (name : Str) (o : Option {0} (Unit × Str))
    → or_else (x.parse (sink x) name) (literal name (codes "Core.")) ≡ o
    → is_some (whole (setting_read (x.parse (x.chars_except dot)) o)) ≡ true
    → IsSetting name
setting_read-IsSetting x d name none e h = absurd cc
setting_read-IsSetting x d name (some (u, rest)) e h =
    let h0 = rw (d.parse-chars_except dot rest) at h in
    let (part, k) = some-exists (whole (nonempty (span (λ c. not (c == dot)) rest))) h0 in
    let (front, section, text) = front-Behind x d name rest (x.parse (sink x) name) refl e in
    let (same, isPart) = Splits-IsPart rest part (span _ rest) (span-Splits _ rest) k in
    record {
      front = front;
      part = part;
      name_lem = rw (← same) text;
      front_lem = section;
      part_lem = isPart;
    }

-- A name is a log setting just if it is `Core.` or `Sinks.`, a number up to 2^32 - 1 and a dot, and
-- behind it a last part that is not empty and has no dot.
pub is_setting_iff :
    (x : Spirit) → Documented x → (name : Str) → (is_setting x name ≡ true) ↔ IsSetting name
unfolding is_setting
is_setting_iff x d name = (
  λ h. setting_read-IsSetting x d name _ refl (rw (parse-setting x d name) at h),
  λ h.
      rw
        (
          parse-setting x d name,
          h.name_lem,
          front_reads x d h.front h.part h.front_lem,
          d.parse-chars_except dot h.part,
          whole_part h.part h.part_lem,
        )
        refl,
)
