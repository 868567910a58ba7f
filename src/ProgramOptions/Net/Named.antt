-- ===== src/ProgramOptions/Net/Named.antt =====
-- The shape of the grammars of utils/program_options/net.hpp: a piece without a colon, and what
-- follows it.
use fb_utils.Prelude.{
  ℕ, ◌<◌, ◌≡◌, ◌≢◌, ◌↔◌, refl, Bool, not, [], ◌∷◌, ◌++◌, Option, some, none, Str, All, ◌==◌, length,
  arith,
}
use fb_utils.Spirit.{whole, Spirit, Documented, span, nonempty, with_attribute, and_then}
use fb_utils.Spirit.Span.{Splits, Stops, span-Splits, span-append, All-except, except-All}
use fb_utils.ProgramOptions.Net.{colon}

abbrev pub IsName : Str → Type 0
IsName name = (0 < length name) × All (λ c. c ≢ colon) name

abbrev pub no_colon : ℕ → Bool
no_colon c = not (c == colon)

-- The text is a name, and what `q` reads as a whole.
pub record Named {A : Type 0} (q : Str → Option (A × Str)) (text name : Str) (a : A) : Type 0 where
  pub rest : Str
  pub text_lem : text ≡ name ++ rest
  pub name_lem : IsName name
  pub rest_lem : Stops no_colon rest
  pub whole_lem : whole (q rest) ≡ some a

pub whole-with_attribute :
    {A B : Type 0} (f : A → B) (m : Option (A × Str)) (b : B)
    → whole (with_attribute f m) ≡ some b
    → (a : A) × (whole m ≡ some a) × (b ≡ f a)
whole-with_attribute f none b e = absurd cc
whole-with_attribute f (some (a, [])) b e = (a, refl, cc)
whole-with_attribute f (some (a, c ∷ rest)) b e = absurd cc

pub with_attribute-whole :
    {A B : Type 0} (f : A → B) (m : Option (A × Str)) (a : A)
    → whole m ≡ some a
    → whole (with_attribute f m) ≡ some (f a)
with_attribute-whole f none a e = absurd cc
with_attribute-whole f (some (b, [])) a e = cc
with_attribute-whole f (some (b, c ∷ rest)) a e = absurd cc

-- What follows the piece.
abbrev after :
    {A : Type 0} → (Str → Option (A × Str)) → Option (Str × Str) → Option ((Str × A) × Str)
after q m = and_then m (λ name rest. with_attribute (λ a. (name, a)) (q rest))

after-Named :
    {A : Type 0} (q : Str → Option (A × Str)) (text : Str) (s : Str × Str) (b : Str × A)
    → Splits no_colon text s.0 s.1
    → whole (after q (nonempty s)) ≡ some b
    → Named q text b.0 b.1
after-Named q text ([], rest) b h e = absurd cc
after-Named q text (c ∷ name, rest) b h e =
    let (a, e1, e2) = whole-with_attribute (λ a. (c ∷ name, a)) (q rest) b e in
    rw (e2) (record {
      rest = rest;
      text_lem = h.text_lem;
      name_lem = (omega arith, All-except colon (c ∷ name) h.front_lem);
      rest_lem = h.rest_lem;
      whole_lem = e1;
    })

Named-after :
    {A : Type 0} (q : Str → Option (A × Str)) (name rest : Str) (a : A)
    → IsName name
    → whole (q rest) ≡ some a
    → whole (after q (nonempty (name, rest))) ≡ some (name, a)
Named-after q [] rest a h e = absurd (omega (arith, h.0))
Named-after q (c ∷ name) rest a h e = with_attribute-whole (λ b. (c ∷ name, b)) (q rest) a e

module _ (x : Spirit) (d : Documented x) where
  parse_parts :
      {A B : Type 0} (f : Str × A → B) (q : x.Parser A) (text : Str)
      → x.parse (x.rule f (x.seq (x.chars_except colon) q)) text
        ≡ with_attribute f (after (x.parse q) (nonempty (span no_colon text)))
  parse_parts f q text =
      rw
        (
          d.parse-rule f (x.seq (x.chars_except colon) q) text,
          d.parse-seq (x.chars_except colon) q text,
          d.parse-chars_except colon text,
        )
        refl

  pub parts_iff :
      {A B : Type 0} (f : Str × A → B) (q : x.Parser A) (text : Str) (b : B)
      → (whole (x.parse (x.rule f (x.seq (x.chars_except colon) q)) text) ≡ some b)
        ↔ ((name : Str) × (a : A) × Named (x.parse q) text name a × (b ≡ f (name, a)))
  parts_iff {A = A} f q text b = (forward, backward)
    where
      forward :
          whole (x.parse (x.rule f (x.seq (x.chars_except colon) q)) text) ≡ some b
          → (name : Str) × (a : A) × Named (x.parse q) text name a × (b ≡ f (name, a))
      forward e =
          let e0 : whole (with_attribute f (after (x.parse q) (nonempty (span no_colon text))))
              ≡ some b =
            rw (← parse_parts f q text) e in
          let (a, e1, e2) =
            whole-with_attribute f (after (x.parse q) (nonempty (span no_colon text))) b e0 in
          (
            a.0,
            a.1,
            after-Named (x.parse q) text (span no_colon text) a (span-Splits no_colon text) e1,
            e2,
          )

      backward :
          ((name : Str) × (a : A) × Named (x.parse q) text name a × (b ≡ f (name, a)))
          → whole (x.parse (x.rule f (x.seq (x.chars_except colon) q)) text) ≡ some b
      backward (name, a, h, e) =
          rw
            (
              parse_parts f q text,
              h.text_lem,
              span-append no_colon name h.rest (except-All colon name h.name_lem.1) h.rest_lem,
              e,
            )
            (with_attribute-whole f _ (name, a)
              (Named-after (x.parse q) name h.rest a h.name_lem h.whole_lem))
