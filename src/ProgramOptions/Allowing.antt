-- ===== src/ProgramOptions/Allowing.antt =====
-- The check of the options in `parse_ini` of utils/program_options/ini_parser.cpp leaves prefixes
-- that are in order and of which none extends another.
use fb_utils.Prelude.{
  ℕ, ◌≡◌, inl, inr, refl, ◌-◌, ◌==◌, Bool, true, false, ◌||◌, List, [], ◌∷◌, Option, none, some,
  Str, starts_with, if◌then◌else◌, Bool-cases, take, length, ok, err, Ensures, Ensures->>=,
  Ensures-if,
}
use fb_utils.ProgramOptions.IniOptions.{
  less, lower_bound, last?, has_prefix, extends_prefix, insert, Allowed, allow_prefix, allow,
  allow_all, Outcome, abbreviated_name,
}
use fb_utils.ProgramOptions.Prefixes.{Separate}

-- In front of what the text is put into.
link :
    (x key y : Str) (ys : List Str)
    → Separate (x ∷ y ∷ ys)
    → less x key ≡ true
    → (less y key ≡ false → starts_with key x ≡ false)
    → Separate (insert key (y ∷ ys))
    → Separate (x ∷ insert key (y ∷ ys))
unfolding insert
link x key y ys s e differ ih = elim (Bool-cases (less y key)) [
  | inl f ↦ rw (insert, f) (s.0, s.1, (rw (insert, f) at ih))
  | inr f ↦ elim (Bool-cases (less key y)) [
    | inl g ↦ rw (insert, f, g) (e, differ f, (rw (insert, f, g) at ih))
    | inr g ↦ rw (insert, f, g) s
  ]
]

-- Of the neighbours, the one in front stays the same without the first text.
still :
    (key x : Str) (before : List Str)
    → has_prefix key (last? (x ∷ before)) ≡ false
    → has_prefix key (last? before) ≡ false
still key x [] h = refl
still key x (y ∷ before) h = h

-- A text that does not clash with its neighbours is put between them.
insert-Separate :
    (key : Str) (ps : List Str)
    → Separate ps
    → extends_prefix key (lower_bound key ps).1 ≡ false
    → has_prefix key (last? (lower_bound key ps).0) ≡ false
    → Separate (insert key ps)
unfolding insert lower_bound
insert-Separate key [] s h k = tt
insert-Separate key (x ∷ []) s h k = elim (Bool-cases (less x key)) [
  | inl e ↦ rw (e) (e, (rw (lower_bound, e) at k), tt)
  | inr e ↦ elim (Bool-cases (less key x)) [
    | inl f ↦ rw (e, f) (f, (rw (lower_bound, e) at h), tt)
    | inr f ↦ rw (e, f) tt
  ]
]
insert-Separate key (x ∷ y ∷ ys) s h k = elim (Bool-cases (less x key)) [
  | inl e ↦
      let h' : extends_prefix key (lower_bound key (y ∷ ys)).1 ≡ false = rw (lower_bound, e) at h in
      let k' : has_prefix key (last? (x ∷ (lower_bound key (y ∷ ys)).0)) ≡ false =
        rw (lower_bound, e) at k in
      rw (e) (
        link x key y ys s e (λ f. rw (lower_bound, f) at k')
          (insert-Separate key (y ∷ ys) s.2 h' (still key x (lower_bound key (y ∷ ys)).0 k')))
  | inr e ↦ elim (Bool-cases (less key x)) [
    | inl f ↦ rw (e, f) (f, (rw (lower_bound, e) at h), s)
    | inr f ↦ rw (e, f) s
  ]
]

abbrev pub IsSeparate : Allowed → Type 0
IsSeparate allowed = Separate allowed.prefixes

or_left : (a b : Bool) → (a || b) ≡ false → a ≡ false
or_left true b h = h
or_left false b h = refl

or_right : (a b : Bool) → (a || b) ≡ false → b ≡ false
or_right true b h = cc
or_right false b h = h

allow_prefix-IsSeparate :
    (long_name : Str) (allowed : Allowed)
    → IsSeparate allowed
    → Ensures IsSeparate (allow_prefix long_name allowed)
unfolding allow_prefix
allow_prefix-IsSeparate long_name allowed s =
    let prefix = take (length long_name - 1) long_name in
    let place = lower_bound prefix allowed.prefixes in
    Ensures-if IsSeparate (extends_prefix prefix place.1 || has_prefix prefix (last? place.0)) _ _
      (λ _. tt)
      (λ e.
        insert-Separate prefix allowed.prefixes s (or_left _ _ e)
          (or_right (extends_prefix prefix place.1) _ e))

allow_last :
    (last : Option ℕ) (long_name : Str) (added : Allowed)
    → IsSeparate added
    → Ensures IsSeparate (elim last as (λ k. Outcome Allowed) [
      | none ↦ err abbreviated_name
      | some c ↦ if c == b'*' then allow_prefix long_name added else ok added
    ])
allow_last none long_name added s = tt
allow_last (some c) long_name added s =
    Ensures-if IsSeparate (c == b'*') (allow_prefix long_name added) (ok added)
      (λ _. allow_prefix-IsSeparate long_name added s) (λ _. s)

-- The loop over the options comes to prefixes that are in order and of which none extends another,
-- or to an exception.
pub allow_all-IsSeparate :
    (names : List Str) (allowed : Allowed)
    → IsSeparate allowed
    → Ensures IsSeparate (allow_all names allowed)
unfolding allow_all allow
allow_all-IsSeparate [] allowed s = s
allow_all-IsSeparate (name ∷ names) allowed s =
    Ensures->>= IsSeparate IsSeparate (allow name allowed) _
      (allow_last (last? name) name (record allowed { options = name ∷ allowed.options }) s)
      (λ next h. allow_all-IsSeparate names next h)
