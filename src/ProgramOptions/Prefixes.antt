-- ===== src/ProgramOptions/Prefixes.antt =====
-- The prefixes that `parse_ini` of utils/program_options/ini_parser.cpp allows, and `is_registered`.
use fb_utils.Prelude.{
  ◌≡◌, ◌≢◌, ◌↔◌, ◌⊎◌, inl, inr, refl, true, false, List, [], ◌∷◌, Option, none, some, Str,
  starts_with, arith, Bool-cases,
}
use fb_utils.ProgramOptions.IniOptions.{
  less, lower_bound, last?, has_prefix, Allowed, contains, is_registered,
}
use fb_utils.ProgramOptions.Order.{less_trans, less_irrefl, between, prefix-less}

-- The texts are in order, and none is a prefix of the next.
abbrev pub Separate : List Str → Type 0
Separate [] = Unit
Separate (x ∷ []) = Unit
Separate (x ∷ y ∷ ys) = (less x y ≡ true) × (starts_with y x ≡ false) × Separate (y ∷ ys)

pub data Member (p : Str) : List Str → Type 0 where
  here : {xs : List Str} → Member p (p ∷ xs)
  there : {x : Str} {xs : List Str} → Member p xs → Member p (x ∷ xs)

-- A text that follows the last one in front of the position.
first-less :
    (key y : Str) (ys : List Str) {p : Str}
    → last? (lower_bound key (y ∷ ys)).0 ≡ some p
    → less y key ≡ true
unfolding lower_bound
first-less key y ys h = ground arith

last-cons : (x : Str) (xs : List Str) {p : Str} → last? xs ≡ some p → last? (x ∷ xs) ≡ some p
last-cons x [] h = cc
last-cons x (y ∷ xs) h = h

-- The prefix of the key is the last one in front of its position.
last-prefix :
    (key p : Str) (ps : List Str)
    → Separate ps
    → Member p ps
    → starts_with key p ≡ true
    → less p key ≡ true
    → last? (lower_bound key ps).0 ≡ some p
unfolding lower_bound
last-prefix key p [] s m h k = elim m [ ]
last-prefix key p (_ ∷ []) s here h k = rw (lower_bound, k)
last-prefix key p (_ ∷ y ∷ ys) s here h k =
    let stops : less y key ≡ false = ground (arith, between p y key) in rw (lower_bound, k, stops)
last-prefix key p (x ∷ []) s (there m) h k = elim m [ ]
last-prefix key p (x ∷ y ∷ ys) s (there m) h k =
    let last = last-prefix key p (y ∷ ys) s.2 m h k in
    let first = less_trans x y key s.0 (first-less key y ys last) in
    rw (first) (last-cons x (lower_bound key (y ∷ ys)).0 last)

last-cases :
    (x : Str) (xs : List Str) {p : Str} → last? (x ∷ xs) ≡ some p → (x ≡ p) ⊎ (last? xs ≡ some p)
last-cases x [] h = inl (ground arith)
last-cases x (y ∷ xs) h = inr h

-- The last one in front of the position of the key is one of the texts, and less than the key.
last-Member :
    (key p : Str) (ps : List Str)
    → last? (lower_bound key ps).0 ≡ some p
    → Member p ps × (less p key ≡ true)
unfolding lower_bound
last-Member key p [] h = cc
last-Member key p (x ∷ xs) h = elim (Bool-cases (less x key)) [
  | inl e ↦ elim (last-cases x (lower_bound key xs).0 (rw (lower_bound, e) at h)) [
    | inl same ↦ (rw (← same) here, rw (← same) e)
    | inr later ↦ let rest = last-Member key p xs later in (there rest.0, rest.1)
  ]
  | inr e ↦ absurd (ground arith)
]

-- A proper extension of one of the prefixes.
abbrev pub Extends : Str → List Str → Type 0
Extends key ps = (p : Str) × Member p ps × (starts_with key p ≡ true) × (p ≢ key)

found :
    (key : Str) (ps : List Str) (last : Option Str)
    → last? (lower_bound key ps).0 ≡ last
    → has_prefix key last ≡ true
    → Extends key ps
found key ps none e h = cc
found key ps (some p) e h =
    let known = last-Member key p ps e in
    let differ : p ≢ key = λ same. ground (arith, less_irrefl key, known.1, same) in
    (p, known.0, h, differ)

known-registers :
    (allowed : Allowed) (key : Str)
    → Separate allowed.prefixes
    → (contains key allowed.options ≡ true) ⊎ Extends key allowed.prefixes
    → is_registered allowed key ≡ true
unfolding is_registered
known-registers allowed key s (inl e) = rw (e)
known-registers allowed key s (inr (p, m, h, n)) =
    let e = last-prefix key p allowed.prefixes s m h (prefix-less p key h n) in ground (arith, e, h)

-- With prefixes that are in order and of which none extends another, a key is registered exactly
-- when it is one of the options or a proper extension of one of the prefixes.
pub is_registered_iff :
    (allowed : Allowed) (key : Str)
    → Separate allowed.prefixes
    → (is_registered allowed key ≡ true)
      ↔ ((contains key allowed.options ≡ true) ⊎ Extends key allowed.prefixes)
unfolding is_registered
is_registered_iff allowed key s = (
  (λ h. elim (Bool-cases (contains key allowed.options)) [
    | inl e ↦ inl e
    | inr e ↦ inr (found key allowed.prefixes _ refl (ground arith))
  ]),
  known-registers allowed key s,
)
