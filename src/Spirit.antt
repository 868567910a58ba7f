-- ===== src/Spirit.antt =====
-- Boost.Spirit X3 as the grammars of the program use it: an interface with the parsers and the
-- operators that they name, and the documented behaviour as laws. A parser gives an attribute and
-- the text that it leaves, or fails; the attribute of a parse starts empty.
pub mod Peg
pub mod Span
pub mod Longest
pub mod Elements
pub mod Numbers
use fb_utils.Prelude.{
  ℕ, zero, suc, ◌+◌, ◌-◌, ◌*◌, ◌≤◌, ◌≡◌, Bool, true, false, not, ◌&&◌, List, [], ◌∷◌, Option, none,
  some, leb, ltb, ◌==◌, if◌then◌else◌, Str, starts_with, length, drop,
}

pub record Spirit : Type 1 where
  pub Parser : Type 0 → Type 0
  -- `x3::parse` from the start of a text on.
  pub parse : {A : Type 0} → Parser A → Str → Option (A × Str)
  -- A literal, `+(x3::char_ - c)` and `+x3::char_`.
  pub lit : Str → Parser Unit
  pub chars_except : ℕ → Parser Str
  pub chars : Parser Str
  -- `x3::uint_parser` for a type with this largest number.
  pub uint : ℕ → Parser ℕ
  -- `x3::symbols`, `x3::attr`, and the attribute of a rule.
  pub symbols : {A : Type 0} → List (Str × A) → Parser A
  pub attr : {A : Type 0} → A → Parser A
  pub rule : {A B : Type 0} → (A → B) → Parser A → Parser B
  -- `a >> b`, with a literal on the left `a >> b`, and `a | b`.
  pub seq : {A B : Type 0} → Parser A → Parser B → Parser (A × B)
  pub then_ : {A : Type 0} → Parser Unit → Parser A → Parser A
  pub alt : {A : Type 0} → Parser A → Parser A → Parser A
  -- `a % b`
  pub separated : {A : Type 0} → Parser A → Parser Unit → Parser (List A)

-- The longest piece in front without the byte, and the rest.
unfoldable pub span : (ℕ → Bool) → Str → Str × Str
span p [] = ([], [])
span p (c ∷ text) =
    let (front, rest) = span p text in if p c then (c ∷ front, rest) else ([], c ∷ text)

abbrev pub nonempty : Str × Str → Option (Str × Str)
nonempty ([], rest) = none
nonempty (c ∷ front, rest) = some (c ∷ front, rest)

abbrev pub is_digit : ℕ → Bool
is_digit c = leb 48 c && leb c 57

abbrev pub add_digit : ℕ → ℕ → ℕ
add_digit value c = value * 10 + (c - 48)

unfoldable pub value_of : ℕ → Str → ℕ
value_of value [] = value
value_of value (c ∷ text) = value_of (add_digit value c) text

abbrev pub in_limit : ℕ → Option (Str × Str) → Option (ℕ × Str)
in_limit limit none = none
in_limit limit (some (digits, rest)) =
    let value = value_of 0 digits in if leb value limit then some (value, rest) else none

-- The symbol that matches the most, the later of two that are the same text.
abbrev pub longer {ℓ} : {A : Type ℓ} → Str → Str → A → Option (ℕ × A) → Option (ℕ × A)
longer text name a none = if starts_with text name then some (length name, a) else none
longer text name a (some (n, b)) =
    if starts_with text name && ltb n (length name) then some (length name, a) else some (n, b)

unfoldable pub longest {ℓ} : {A : Type ℓ} → List (Str × A) → Str → Option (ℕ × A)
longest [] text = none
longest ((name, a) ∷ names) text = longer text name a (longest names text)

abbrev pub cut {ℓ} : {A : Type ℓ} → Str → Option (ℕ × A) → Option (A × Str)
cut text none = none
cut text (some (n, a)) = some (a, drop n text)

abbrev pub with_attribute {ℓ κ} :
    {A : Type ℓ} {B : Type κ} → (A → B) → Option (A × Str) → Option (B × Str)
with_attribute f none = none
with_attribute f (some (a, rest)) = some (f a, rest)

-- What follows a success.
abbrev pub and_then {ℓ κ} :
    {A : Type ℓ} {B : Type κ} → Option (A × Str) → (A → Str → Option (B × Str)) → Option (B × Str)
and_then none f = none
and_then (some (a, rest)) f = f a rest

abbrev pub or_else {ℓ} : {A : Type ℓ} → Option (A × Str) → Option (A × Str) → Option (A × Str)
or_else none second = second
or_else (some a) second = some a

-- The further elements of a list, each behind a separator. A separator that is not empty takes a
-- byte, so the length of the text bounds them.
abbrev pub next_element {ℓ} :
    {A : Type ℓ} → Str → Option (A × Str) → (Str → List A × Str) → List A × Str
next_element text none further = ([], text)
next_element text (some (a, rest)) further = let (more, end) = further rest in (a ∷ more, end)

unfoldable pub elements {ℓ} :
    {A : Type ℓ}
    → ℕ
    → (Str → Option {0} (Unit × Str))
    → (Str → Option (A × Str))
    → Str
    → List A × Str
elements zero separator p text = ([], text)
elements (suc fuel) separator p text =
    next_element text (and_then (separator text) (λ _ rest. p rest))
      (λ rest. elements fuel separator p rest)

-- What a parser gives that has come to the end of the text.
abbrev pub whole : {A : Type 0} → Option (A × Str) → Option A
whole none = none
whole (some (a, [])) = some a
whole (some (a, c ∷ rest)) = none

-- The documented behaviour.
pub record Documented (x : Spirit) : Type 1 where
  pub parse-lit :
      (s text : Str)
      → x.parse (x.lit s) text
        ≡ (if starts_with text s then some (tt, drop (length s) text) else none)
  pub parse-chars_except :
      (c : ℕ) (text : Str)
      → x.parse (x.chars_except c) text ≡ nonempty (span (λ d. not (d == c)) text)
  pub parse-chars : (text : Str) → x.parse x.chars text ≡ nonempty (text, [])
  pub parse-uint :
      (limit : ℕ) (text : Str)
      → x.parse (x.uint limit) text ≡ in_limit limit (nonempty (span is_digit text))
  pub parse-symbols :
      {A : Type 0} (names : List (Str × A)) (text : Str)
      → x.parse (x.symbols names) text ≡ cut text (longest names text)
  pub parse-attr : {A : Type 0} (a : A) (text : Str) → x.parse (x.attr a) text ≡ some (a, text)
  pub parse-rule :
      {A B : Type 0} (f : A → B) (p : x.Parser A) (text : Str)
      → x.parse (x.rule f p) text ≡ with_attribute f (x.parse p text)
  pub parse-seq :
      {A B : Type 0} (p : x.Parser A) (q : x.Parser B) (text : Str)
      → x.parse (x.seq p q) text
        ≡ and_then (x.parse p text) (λ a rest. with_attribute (λ b. (a, b)) (x.parse q rest))
  pub parse-then :
      {A : Type 0} (p : x.Parser Unit) (q : x.Parser A) (text : Str)
      → x.parse (x.then_ p q) text ≡ and_then (x.parse p text) (λ _ rest. x.parse q rest)
  pub parse-alt :
      {A : Type 0} (p q : x.Parser A) (text : Str)
      → x.parse (x.alt p q) text ≡ or_else (x.parse p text) (x.parse q text)
  pub parse-separated :
      {A : Type 0} (p : x.Parser A) (separator : x.Parser Unit) (text : Str)
      → x.parse (x.separated p separator) text
        ≡ and_then (x.parse p text) (λ a rest.
          with_attribute
            (λ more. a ∷ more)
            (some (elements (length rest) (x.parse separator) (x.parse p) rest)))
