-- ===== src/Ini/Parser/Includes.antt =====
-- The list of the files that utils/ini_parser/ini_parser.cpp has open, against all the files there
-- are, and the calls that only pass an exception on.
use fb_utils.Prelude.{
  ℕ, ◌+◌, ◌≤◌, ◌<◌, ◌≡◌, ◌≢◌, refl, ap, sym, not, ◌&&◌, List, [], ◌∷◌, ◌++◌, Option, none, some,
  Bool-cases, if◌then◌else◌, Str, equal, equal_iff, ok, err, timeout, fault, Settles, Ensures,
  arith, inl, inr, is_nil,
}
use fb_utils.Ini.Error.{Outcome, Error}
use fb_utils.Ini.Parser.{IniParser, back, from_path, or_throw, rethrow, pop_back}

-- Whether a path is in the list.
abbrev pub Visited : Str → List Str → Type 0
Visited path paths = from_path path paths ≢ []

pub rethrow-Ensures {ℓ κ} :
    {A : Type ℓ} (P : A → Type κ) (f : Error → Error) (m : Outcome A)
    → Ensures P m
    → Ensures P (rethrow f m)
rethrow-Ensures P f (ok a) h = h
rethrow-Ensures P f (err e) h = tt
rethrow-Ensures P f fault h = h
rethrow-Ensures P f timeout h = h

pub rethrow-Settles {ℓ} :
    {A : Type ℓ} (f : Error → Error) (m : Outcome A) → Settles m → Settles (rethrow f m)
rethrow-Settles f (ok a) h = tt
rethrow-Settles f (err e) h = tt
rethrow-Settles f fault h = h
rethrow-Settles f timeout h = h

pub or_throw-Settles {ℓ} : {A : Type ℓ} (o : Option A) (e : Error) → Settles (or_throw o e)
or_throw-Settles none e = tt
or_throw-Settles (some a) e = tt

pub or_throw-eq-ok {ℓ} :
    {A : Type ℓ} (o : Option A) (e : Error) {a : A} → or_throw o e ≡ ok a → o ≡ some a
or_throw-eq-ok none e h = cc
or_throw-eq-ok (some b) e h = ground arith

pub back-some : (x : Str) (xs : List Str) → (y : Str) × (back (x ∷ xs) ≡ some y)
back-some x [] = (x, refl)
back-some x (y ∷ xs) = back-some y xs

-- The parser still has the includes `inc`.
abbrev pub Keeps : List Str → IniParser → Type 0
Keeps inc q = q.includes ≡ inc

abbrev pub KeepsFirst : List Str → IniParser × Str → Type 0
KeepsFirst inc s = s.0.includes ≡ inc

-- How many of the files are not being read.
abbrev pub unvisited : List Str → List Str → ℕ
unvisited inc [] = 0
unvisited inc (f ∷ rest) = (if is_nil (from_path f inc) then 1 else 0) + unvisited inc rest

pub from_path-concat :
    (f t : Str) (inc : List Str)
    → is_nil (from_path f (inc ++ (t ∷ []))) ≡ is_nil (from_path f inc) && not (equal t f)
unfolding from_path
from_path-concat f t [] = ground arith
from_path-concat f t (x ∷ inc) = ground (arith, from_path-concat f t inc)

pub unvisited-concat-le :
    (inc : List Str) (t : Str) (files : List Str)
    → unvisited (inc ++ (t ∷ [])) files ≤ unvisited inc files
unvisited-concat-le inc t [] = omega arith
unvisited-concat-le inc t (f ∷ rest) =
    ground (arith, from_path-concat f t inc, unvisited-concat-le inc t rest)

-- A file that is entered is no longer among those left.
pub unvisited-concat-lt :
    (inc : List Str) (t : Str) (files : List Str)
    → from_path t inc ≡ []
    → Visited t files
    → unvisited (inc ++ (t ∷ [])) files < unvisited inc files
unfolding from_path
unvisited-concat-lt inc t [] free known = absurd (known refl)
unvisited-concat-lt inc t (f ∷ rest) free known = elim (Bool-cases (equal f t)) [
  | inl same ↦
      let e : f ≡ t = (equal_iff f t).0 same in
      let free' : from_path f inc ≡ [] = rw e free in
      ground
        (arith, from_path-concat f t inc, (equal_iff t f).1 (sym e), unvisited-concat-le inc t rest)
  | inr other ↦
      ground
        (arith, from_path-concat f t inc, unvisited-concat-lt inc t rest free (rw other at known))
]

pub concat-cons {ℓ} :
    {A : Type ℓ} (xs : List A) (x : A) → (y : A) × (ys : List A) × (xs ++ (x ∷ []) ≡ y ∷ ys)
concat-cons [] x = (x, [], refl)
concat-cons (y ∷ xs) x = (y, xs ++ (x ∷ []), refl)

pub pop_back-concat : (xs : List Str) (x : Str) → pop_back (xs ++ (x ∷ [])) ≡ xs
pop_back-concat [] x = refl
pop_back-concat (y ∷ []) x = refl
pop_back-concat (y ∷ z ∷ xs) x = ap (◌∷◌ y) (pop_back-concat (z ∷ xs) x)
