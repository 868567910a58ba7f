-- ===== src/ProgramOptions/Validators.antt =====
-- What the validators in utils/program_options/validators have from Boost.Program_options: the
-- checks are parameters, with their documented behaviour as laws. The value of an option, a
-- `boost::any`, is an Option of the validator's type.
pub mod Accepts
use fb_utils.Spirit.{whole}
use fb_utils.Prelude.{◌≡◌, refl, List, [], ◌∷◌, Option, none, some, Str, Result, ok, err, ◌>>=◌}

-- The exceptions: validation_error with its text, std::runtime_error with its text, and what the
-- checks throw.
pub data ValidateError : Type 0 where
  invalid_option_value : Str → ValidateError
  runtime_error : Str → ValidateError
  multiple_occurrences : ValidateError
  multiple_values : ValidateError
  at_least_one_value_required : ValidateError

-- `validators::check_first_occurrence` and `validators::get_single_string`.
pub record Validators : Type 1 where
  pub check_first_occurrence : {A : Type 0} → Option A → Result {0, 0} ValidateError Unit
  pub get_single_string : List Str → Result ValidateError Str

pub record DocumentedChecks (c : Validators) : Type 1 where
  pub check_first_occurrence-none : {A : Type 0} → c.check_first_occurrence {A = A} none ≡ ok tt
  pub check_first_occurrence-some :
      {A : Type 0} (a : A) → c.check_first_occurrence (some a) ≡ err multiple_occurrences
  pub get_single_string-nil : c.get_single_string [] ≡ err at_least_one_value_required
  pub get_single_string-one : (s : Str) → c.get_single_string (s ∷ []) ≡ ok s
  pub get_single_string-more :
      (s t : Str) (values : List Str) → c.get_single_string (s ∷ t ∷ values) ≡ err multiple_values

-- `throw` where there is no value.
abbrev pub or_throw : {A : Type 0} → ValidateError → Option A → Result ValidateError A
or_throw e none = err e
or_throw e (some a) = ok a

-- The two checks, and then the value's text: the new value of the option.
unfoldable pub validate_with :
    {A : Type 0}
    → Validators
    → (Str → Result ValidateError A)
    → Option A
    → List Str
    → Result ValidateError (Option A)
validate_with c read v values =
    c.check_first_occurrence v
    >>= (λ _. c.get_single_string values >>= (λ value. read value >>= (λ res. ok (some res))))

-- Functions that behave as documented.
abbrev pub checks : Validators
checks = record {
  check_first_occurrence = λ v. elim v [ none ↦ ok tt | some a ↦ err multiple_occurrences ];
  get_single_string = λ values. elim values [
    | [] ↦ err at_least_one_value_required
    | s ∷ rest ↦ elim rest [ [] ↦ ok s | t ∷ more ↦ err multiple_values ]
  ];
}

pub checks-DocumentedChecks : DocumentedChecks checks
checks-DocumentedChecks = record {
  check_first_occurrence-none = refl;
  check_first_occurrence-some = λ a. refl;
  get_single_string-nil = refl;
  get_single_string-one = λ s. refl;
  get_single_string-more = λ s t values. refl;
}
