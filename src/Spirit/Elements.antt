-- ===== src/Spirit/Elements.antt =====
-- The further elements of a list in Boost.Spirit, behind commas.
use fb_utils.Prelude.{
  ◌≡◌, ◌⊎◌, refl, sym, ap, inl, inr, [], ◌∷◌, List, Option, none, some, starts_with, drop,
  if◌then◌else◌, codes, Str, Bool-cases,
}
use fb_utils.Spirit.{and_then, next_element}
use fb_utils.Spirit.Longest.{starts_with-append}

pub whole_pair : {A : Type 0} (s : A × Str) → s.1 ≡ [] → s ≡ (s.0, [])
whole_pair (a, rest) e = ap (λ rest. (a, rest)) e

-- How the further elements can be that reach the end.
pub next_element-cases :
    {A : Type 0} (text : Str) (o : Option (A × Str)) (further : Str → List A × Str) (xs : List A)
    → next_element text o further ≡ (xs, [])
    → ((text ≡ []) × (xs ≡ []))
      ⊎ ((a : A) × (rest : Str) × (more : List A) × (o ≡ some (a, rest))
          × (further rest ≡ (more, []))
          × (xs ≡ a ∷ more))
next_element-cases text none further xs e = inl (ap (λ s. s.1) e, sym (ap (λ s. s.0) e))
next_element-cases text (some (a, rest)) further xs e = inr (
  a,
  rest,
  (further rest).0,
  refl,
  whole_pair (further rest) (ap (λ s. s.1) e),
  sym (ap (λ s. s.0) e),
)

-- What is behind a separator.
abbrev pub comma : Str → Option {0} (Unit × Str)
comma text = if starts_with text (codes ",") then some (tt, drop 1 text) else none

pub and_then-comma :
    {A : Type 0} (f : Str → Option (A × Str)) (text rest : Str) (a : A)
    → and_then (comma text) (λ _ rest. f rest) ≡ some (a, rest)
    → (r : Str) × (text ≡ b',' ∷ r) × (f r ≡ some (a, rest))
and_then-comma f text rest a e = elim (Bool-cases (starts_with text (codes ","))) [
  | inl k ↦ (drop 1 text, starts_with-append text (codes ",") k, rw (k) at e)
  | inr k ↦ let e0 = rw (k) at e in absurd cc
]
