-- ===== src/Spirit/Longest.antt =====
-- The symbol that the longest match gives is one of the table, and stands in front of the text.
use fb_utils.Prelude.{
  ℕ, ◌≡◌, refl, inl, inr, true, List, [], ◌∷◌, ◌++◌, Option, none, some, ltb, ◌&&◌, Str,
  starts_with, length, drop, arith, Bool-cases,
}
use fb_utils.Spirit.{longer, longest}

pub starts_with-append :
    (text front : Str) → starts_with text front ≡ true → text ≡ front ++ drop (length front) text
starts_with-append text [] e = refl
starts_with-append [] (b ∷ front) e = absurd cc
starts_with-append (c ∷ text) (b ∷ front) e =
    let here : c ≡ b = ground arith in
    let there : starts_with text front ≡ true = ground arith in
    let same : text ≡ front ++ drop (length front) text = starts_with-append text front there in cc

pub data Member {A : Type 0} (a : A) : List A → Type 0 where
  here : {xs : List A} → Member a (a ∷ xs)
  there : {x : A} {xs : List A} → Member a xs → Member a (x ∷ xs)

pub record Found {A : Type 0} (names : List (Str × A)) (text : Str) (n : ℕ) (a : A) : Type 0 where
  pub name : Str
  pub name_lem : Member (name, a) names
  pub text_lem : starts_with text name ≡ true
  pub length_lem : length name ≡ n

Found-cons :
    {A : Type 0} (entry : Str × A) (names : List (Str × A)) (text : Str) (n : ℕ) (a : A)
    → Found names text n a
    → Found (entry ∷ names) text n a
Found-cons entry names text n a h = record {
  name = h.name;
  name_lem = there h.name_lem;
  text_lem = h.text_lem;
  length_lem = h.length_lem;
}

Found-here :
    {A : Type 0} (name : Str) (b : A) (names : List (Str × A)) (text : Str) (n : ℕ) (a : A)
    → starts_with text name ≡ true
    → ◌≡◌ {A = Option (ℕ × A)} (some (length name, b)) (some (n, a))
    → Found ((name, b) ∷ names) text n a
Found-here name b names text n a h e =
    let size : length name ≡ n = cc in
    let same : a ≡ b = cc in
    rw (same) (record { name = name; name_lem = here; text_lem = h; length_lem = size })

longer-Found :
    {A : Type 0} (name : Str) (b : A) (names : List (Str × A)) (text : Str) (o : Option (ℕ × A))
    (n : ℕ) (a : A)
    → ((n : ℕ) (a : A) → o ≡ some (n, a) → Found names text n a)
    → longer text name b o ≡ some (n, a)
    → Found ((name, b) ∷ names) text n a
longer-Found name b names text none n a h e = elim (Bool-cases (starts_with text name)) [
  | inl k ↦ Found-here name b names text n a k (rw (k) at e)
  | inr k ↦ let e0 = rw (k) at e in absurd cc
]
longer-Found name b names text (some (m, d)) n a h e =
    elim (Bool-cases (starts_with text name && ltb m (length name))) [
      | inl k ↦
          let k0 : starts_with text name ≡ true = ground arith in
          Found-here name b names text n a k0 (rw (k) at e)
      | inr k ↦ Found-cons (name, b) names text n a (h n a (rw (k) at e))
    ]

pub longest-Found :
    {A : Type 0} (names : List (Str × A)) (text : Str) (n : ℕ) (a : A)
    → longest names text ≡ some (n, a)
    → Found names text n a
unfolding longest
longest-Found [] text n a e = absurd cc
longest-Found ((name, b) ∷ names) text n a e =
    longer-Found name b names text (longest names text) n a
      (λ m d k. longest-Found names text m d k) e
