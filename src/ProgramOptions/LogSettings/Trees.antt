-- ===== src/ProgramOptions/LogSettings/Trees.antt =====
-- The trees of utils/program_options/log.cpp: what is found by a name after a value is put in.
use fb_utils.Prelude.{
  ◌≡◌, refl, ap, inl, inr, Bool, true, false, [], ◌∷◌, ◌++◌, List, Option, none, some, Str, equal,
  equal_iff, if◌then◌else◌, Bool-cases, arith,
}
use fb_utils.ProgramOptions.LogSettings.{Tree, put, emplace}

-- The value that is found by a name.
unfoldable pub value_in : Str → Tree → Option Str
value_in name [] = none
value_in name ((n, v) ∷ tree) = if equal n name then some v else value_in name tree

-- The last of the values, or what there was.
abbrev pub later : Option Str → List Str → Option Str
later o [] = o
later o (v ∷ vs) = later (some v) vs

-- What there was, or the first of the values.
abbrev pub earlier : Option Str → List Str → Option Str
earlier (some v) vs = some v
earlier none [] = none
earlier none (v ∷ vs) = some v

abbrev pub has_values : Tree → Bool
has_values [] = false
has_values (v ∷ tree) = true

pub later-append : (o : Option Str) (vs ws : List Str) → later o (vs ++ ws) ≡ later (later o vs) ws
later-append o [] ws = refl
later-append o (v ∷ vs) ws = later-append (some v) vs ws

pub earlier-append :
    (o : Option Str) (vs ws : List Str) → earlier o (vs ++ ws) ≡ earlier (earlier o vs) ws
earlier-append (some v) vs ws = refl
earlier-append none [] ws = refl
earlier-append none (v ∷ vs) ws = refl

equal_names : (m n name : Str) → equal m n ≡ true → equal m name ≡ equal n name
equal_names m n name e = ap (λ text. equal text name) ((equal_iff m n).0 e)

other_name : (m n name : Str) → equal m n ≡ false → equal m name ≡ true → equal n name ≡ false
other_name m n name e k = ground (arith, equal_iff m n, equal_iff m name, equal_iff n name)

pub value_in-put :
    (name n v : Str) (tree : Tree)
    → value_in name (put n v tree) ≡ (if equal n name then some v else value_in name tree)
unfolding value_in put
value_in-put name n v [] = refl
value_in-put name n v ((m, w) ∷ tree) = elim (Bool-cases (equal m n)) [
  | inl e ↦ elim (Bool-cases (equal n name)) [
    | inl k ↦ rw (e, k) refl
    | inr k ↦ rw (e, equal_names m n name e, k) refl
  ]
  | inr e ↦ elim (Bool-cases (equal m name)) [
    | inl k ↦ rw (e, k, other_name m n name e k) refl
    | inr k ↦ rw (e, k) (value_in-put name n v tree)
  ]
]

pub value_in-emplace :
    (name n v : Str) (map : Tree)
    → value_in name (emplace n v map)
      ≡ (if equal n name then earlier (value_in name map) (v ∷ []) else value_in name map)
unfolding value_in emplace
value_in-emplace name n v [] = refl
value_in-emplace name n v ((m, w) ∷ map) = elim (Bool-cases (equal m n)) [
  | inl e ↦ elim (Bool-cases (equal n name)) [
    | inl k ↦ rw (e, equal_names m n name e, k) refl
    | inr k ↦ rw (e, equal_names m n name e, k) refl
  ]
  | inr e ↦ elim (Bool-cases (equal m name)) [
    | inl k ↦ rw (e, k, other_name m n name e k) refl
    | inr k ↦ rw (e, k) (value_in-emplace name n v map)
  ]
]

pub has_values-put : (n v : Str) (tree : Tree) → has_values (put n v tree) ≡ true
unfolding put
has_values-put n v [] = refl
has_values-put n v ((m, w) ∷ tree) = elim (Bool-cases (equal m n)) [
  | inl e ↦ rw (e) refl
  | inr e ↦ rw (e) refl
]
