-- ===== src/Spirit/Peg.antt =====
-- Functions from texts, which behave as documented.
use fb_utils.Prelude.{
  refl, not, [], ◌∷◌, Option, none, some, ◌==◌, if◌then◌else◌, Str, starts_with, length, drop,
}
use fb_utils.Spirit.{
  Spirit, Documented, nonempty, span, in_limit, is_digit, cut, longest, with_attribute, and_then,
  or_else, elements,
}

abbrev pub peg : Spirit
peg = record {
  Parser = λ A. Str → Option (A × Str);
  parse = λ p text. p text;
  lit = λ s text. if starts_with text s then some (tt, drop (length s) text) else none;
  chars_except = λ c text. nonempty (span (λ d. not (d == c)) text);
  chars = λ text. nonempty (text, []);
  uint = λ limit text. in_limit limit (nonempty (span is_digit text));
  symbols = λ names text. cut text (longest names text);
  attr = λ a text. some (a, text);
  rule = λ f p text. with_attribute f (p text);
  seq = λ p q text. and_then (p text) (λ a rest. with_attribute (λ b. (a, b)) (q rest));
  then_ = λ p q text. and_then (p text) (λ _ rest. q rest);
  alt = λ p q text. or_else (p text) (q text);
  separated = λ p separator text. and_then (p text) (λ a rest.
      with_attribute (λ more. a ∷ more) (some (elements (length rest) separator p rest)));
}

pub peg-Documented : Documented peg
peg-Documented = record {
  parse-lit = λ s text. refl;
  parse-chars_except = λ c text. refl;
  parse-chars = λ text. refl;
  parse-uint = λ limit text. refl;
  parse-symbols = λ names text. refl;
  parse-attr = λ a text. refl;
  parse-rule = λ f p text. refl;
  parse-seq = λ p q text. refl;
  parse-then = λ p q text. refl;
  parse-alt = λ p q text. refl;
  parse-separated = λ p separator text. refl;
}
