-- ===== src/ProgramOptions/LogSettings/Tokens.antt =====
-- The two functions of utils/program_options/log.cpp on the same names and values.
use fb_utils.Prelude.{
  ◌≡◌, refl, ap, ◌⊎◌, inl, inr, Bool, true, false, [], ◌∷◌, ◌++◌, List, Str, if◌then◌else◌,
  Bool-cases, fault, ◌%◌, ◌==◌, length, arith, All,
}
use fb_utils.Spirit.{Spirit}
use fb_utils.ProgramOptions.IniOptions.{ParsedOption}
use fb_utils.ProgramOptions.LogSettings.{
  Tree, Settings, Core, put, is_setting, add_tokens, add_option, from_unrecognized, init_log,
  init_log_from_unrecognized, init_log_from_parsed,
}

-- The tokens of unregistered options.
abbrev pub tokens_of : List ParsedOption → List Str
tokens_of [] = []
tokens_of (o ∷ options) = o.original_tokens ++ tokens_of options

unfoldable as_options : List Str → List ParsedOption
as_options (name ∷ value ∷ rest) =
    record {
      string_key = name;
      value = value;
      unregistered = true;
      original_tokens = name ∷ value ∷ [];
    }
    ∷ as_options rest
as_options _ = []

tokens_of-as_options :
    (tokens : List Str) → length tokens % 2 ≡ 0 → tokens_of (as_options tokens) ≡ tokens
unfolding as_options
tokens_of-as_options [] h = refl
tokens_of-as_options (name ∷ []) h = absurd (omega (arith, h))
tokens_of-as_options (name ∷ value ∷ rest) h =
    ap (λ tokens. name ∷ value ∷ tokens) (tokens_of-as_options rest (omega arith))

-- What the first function keeps of the settings.
abbrev kept : Settings → Tree × Bool
kept s = (s.tree, s.has_log_settings)

-- An option as log.cpp takes it: not registered, with a name and a value.
abbrev pub IsTaken : ParsedOption → Type 0
IsTaken o = (o.unregistered ≡ true) × (length o.original_tokens ≡ 2)

as_options-IsTaken : (tokens : List Str) → All IsTaken (as_options tokens)
unfolding as_options
as_options-IsTaken [] = tt
as_options-IsTaken (name ∷ []) = tt
as_options-IsTaken (name ∷ value ∷ rest) = ((refl, refl), as_options-IsTaken rest)

-- A round of each loop.
add_tokens_lem :
    (x : Spirit) (name value : Str) (s : Settings)
    → kept (add_tokens x name value s)
      ≡ (if is_setting x name then (put name value s.tree, true) else kept s)
unfolding add_tokens
add_tokens_lem x name value s = elim (Bool-cases (is_setting x name)) [
  | inl e ↦ rw (e) refl
  | inr e ↦ rw (e) refl
]

from_unrecognized-as_options :
    (x : Spirit) (tokens : List Str) (s : Settings)
    → from_unrecognized x tokens (kept s) ≡ kept (init_log x (as_options tokens) s)
unfolding from_unrecognized init_log add_option as_options
from_unrecognized-as_options x [] s = refl
from_unrecognized-as_options x (name ∷ []) s = refl
from_unrecognized-as_options x (name ∷ value ∷ rest) s =
    rw (← add_tokens_lem x name value s)
      (from_unrecognized-as_options x rest (add_tokens x name value s))

-- The function of a list of strings does what that of parsed options does for unregistered options
-- of two tokens each, which are these strings in order; or the number of strings is odd, and the
-- assertion fails.
pub init_log_from_unrecognized-Agrees :
    (x : Spirit) {S : Type 0} (core : Core S) (unrecognized : List Str) (map : Tree) (s : S)
    → ((options : List ParsedOption) × All IsTaken options
        × (tokens_of options ≡ unrecognized)
        × (init_log_from_unrecognized x core unrecognized s
            ≡ (init_log_from_parsed x core options map s).0))
      ⊎ ((length unrecognized % 2 ≡ 1) × (init_log_from_unrecognized x core unrecognized s ≡ fault))
unfolding init_log_from_unrecognized init_log_from_parsed
init_log_from_unrecognized-Agrees x core unrecognized map s =
    elim (Bool-cases (length unrecognized % 2 == 0)) [
      | inl e ↦
          let same =
            from_unrecognized-as_options x unrecognized
              (record { tree = []; options_map = map; has_log_settings = false }) in
          inl (
            as_options unrecognized,
            as_options-IsTaken unrecognized,
            tokens_of-as_options unrecognized (ground arith),
            rw (e, same) refl,
          )
      | inr e ↦ inr (ground arith, rw (e) refl)
    ]
