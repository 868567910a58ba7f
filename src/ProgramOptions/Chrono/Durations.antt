-- ===== src/ProgramOptions/Chrono/Durations.antt =====
-- What the validator of a duration in utils/program_options/validators/chrono.hpp accepts.
use fb_utils.Prelude.{
  ◌≡◌, ◌↔◌, refl, [], ◌∷◌, Option, none, some, Str, Result, ok, err, fault, timeout, ◌>>=◌,
}
use fb_utils.Spirit.{whole, Spirit}
use fb_utils.ProgramOptions.Validators.{Validators, ValidateError, or_throw}
use fb_utils.ProgramOptions.Validators.Accepts.{Accepts}
use fb_utils.ProgramOptions.Chrono.{converted}

pub converted_iff :
    {A B : Type 0} (e : ValidateError) (f : A → Result ValidateError B) (m : Option (A × Str))
    (b : B)
    → ((converted f m >>= (λ res. or_throw e (whole res))) ≡ ok b)
      ↔ ((a : A) × (whole m ≡ some a) × (f a ≡ ok b))
converted_iff e f none b = (λ h. absurd cc, λ h. let h0 = h.1 in absurd cc)
converted_iff e f (some (a, [])) b = (
  λ h. (a, refl, read (f a) h),
  λ h. let same : a ≡ h.0 = let h1 = h.1 in cc in rw (same, h.2) refl,
)
  where
    read :
        (r : Result ValidateError _)
        → ((r >>= (λ b. ok (some (b, [])))) >>= (λ res. or_throw e (whole res))) ≡ ok b
        → r ≡ ok b
    read (ok a) h = cc
    read (err k) h = absurd cc
    read fault h = absurd cc
    read timeout h = absurd cc
converted_iff e f (some (a, c ∷ rest)) b =
    (λ h. absurd (unread (f a) h), λ h. let h1 = h.1 in absurd cc)
  where
    unread :
        (r : Result ValidateError _)
        → ((r >>= (λ b. ok (some (b, c ∷ rest)))) >>= (λ res. or_throw e (whole res))) ≡ ok b
        → ⊥
    unread (ok a) h = cc
    unread (err k) h = cc
    unread fault h = cc
    unread timeout h = cc

pub whole-cases : {A : Type 0} (m : Option (A × Str)) (a : A) → whole m ≡ some a → m ≡ some (a, [])
whole-cases none a e = absurd cc
whole-cases (some (b, [])) a e = let same : b ≡ a = cc in rw (same) refl
whole-cases (some (b, c ∷ rest)) a e = absurd cc
