-- ===== src/ProgramOptions/Chrono/Lists.antt =====
-- What the validator of a list of durations in utils/program_options/validators/chrono.hpp accepts.
use fb_utils.Prelude.{ℕ, [], ◌∷◌, ◌++◌, List, Option, some, length, Str}
use fb_utils.Spirit.Elements.{comma}
use fb_utils.Spirit.{Spirit, Documented, and_then, elements}
use fb_utils.ProgramOptions.Validators.{Validators}
use fb_utils.ProgramOptions.Validators.Accepts.{Accepts}
use fb_utils.ProgramOptions.Chrono.{TimeUnit, ParsedDuration, duration}
use fb_utils.ProgramOptions.Chrono.Parsed.{DurationForm}

-- Durations, one at least, with a comma between two.
pub data DurationsForm (to : TimeUnit) : Str → List ℕ → Type 0 where
  single : (text : Str) (n : ℕ) → DurationForm to text n → DurationsForm to text (n ∷ [])
  joined :
      (text rest : Str) (n : ℕ) (ns : List ℕ)
      → DurationForm to text n
      → DurationsForm to rest ns
      → DurationsForm to (text ++ b',' ∷ rest) (n ∷ ns)

module _ (x : Spirit) (d : Documented x) (to : TimeUnit) where
  abbrev list_read : Option (ParsedDuration × Str) → Option (List ParsedDuration × Str)
  list_read o = and_then o (λ p rest. some (
    p ∷ (elements (length rest) comma (x.parse (duration x to)) rest).0,
    (elements (length rest) comma (x.parse (duration x to)) rest).1,
  ))
