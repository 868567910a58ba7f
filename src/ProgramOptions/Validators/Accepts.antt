-- ===== src/ProgramOptions/Validators/Accepts.antt =====
-- What a validator accepts, over the checks of Boost.Program_options.
use fb_utils.Prelude.{
  ◌≡◌, ◌↔◌, refl, List, [], ◌∷◌, Option, some, none, Str, Result, ok, err, fault, timeout, ◌>>=◌,
}
use fb_utils.ProgramOptions.Validators.{
  Validators, DocumentedChecks, ValidateError, or_throw, validate_with,
}

-- The option has no value yet, and there is one text, with the property.
abbrev pub Accepts : {A : Type 0} → Option A → List Str → (Str → Type 0) → Type 0
Accepts v values P = (v ≡ none) × (text : Str) × (values ≡ text ∷ []) × P text

-- One after the other.
pub both : {A B C : Type 0} → A ↔ B → B ↔ C → A ↔ C
both f g = (λ a. g.0 (f.0 a), λ z. f.1 (g.1 z))

pub or_throw_iff :
    {A : Type 0} (e : ValidateError) (o : Option A) (a : A) → (or_throw e o ≡ ok a) ↔ (o ≡ some a)
or_throw_iff e none a = (λ h. absurd cc, λ h. absurd cc)
or_throw_iff e (some b) a = (λ h. cc, λ h. cc)

ok_some :
    {A : Type 0} (m : Result ValidateError A) (a : A)
    → (m >>= (λ res. ok (some res))) ≡ ok (some a)
    → m ≡ ok a
ok_some (ok b) a e = cc
ok_some (err b) a e = absurd cc
ok_some fault a e = absurd cc
ok_some timeout a e = absurd cc

validate_with_iff :
    (c : Validators)
    → DocumentedChecks c
    → {A : Type 0} (read : Str → Result ValidateError A) (v : Option A) (values : List Str) (a : A)
    → (validate_with c read v values ≡ ok (some a)) ↔ Accepts v values (λ text. read text ≡ ok a)
unfolding validate_with
validate_with_iff c d read (some b) values a =
    rw (d.check_first_occurrence-some b) (λ h. absurd cc, λ h. let h0 = h.0 in absurd cc)
validate_with_iff c d read none [] a =
    rw (d.check_first_occurrence-none, d.get_single_string-nil)
      (λ h. absurd cc, λ h. let h0 = h.2 in absurd cc)
validate_with_iff c d read none (text ∷ []) a =
    rw (d.check_first_occurrence-none, d.get_single_string-one text)
      (
        λ h. (refl, text, refl, ok_some (read text) a h),
        λ h. let same : h.1 ≡ text = let h2 = h.2 in cc in rw (← same, h.3) refl,
      )
validate_with_iff c d read none (s ∷ t ∷ values) a =
    rw (d.check_first_occurrence-none, d.get_single_string-more s t values)
      (λ h. absurd cc, λ h. let h0 = h.2 in absurd cc)

pub Accepts_iff :
    (c : Validators)
    → DocumentedChecks c
    → {A : Type 0} (read : Str → Result ValidateError A) (P : Str → Type 0) (v : Option A)
      (values : List Str) (a : A)
    → ((text : Str) → (read text ≡ ok a) ↔ P text)
    → (validate_with c read v values ≡ ok (some a)) ↔ Accepts v values P
Accepts_iff c d read P v values a h =
    let whole_iff = validate_with_iff c d read v values a in
    (
      λ e. let (e0, text, e1, e2) = whole_iff.0 e in (e0, text, e1, (h text).0 e2),
      λ e. let (e0, text, e1, e2) = e in whole_iff.1 (e0, text, e1, (h text).1 e2),
    )
