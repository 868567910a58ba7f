-- ===== src/ProgramOptions/Tests.antt =====
-- Runs of utils/program_options at concrete inputs, and instances of its theorems.
use fb_utils.Prelude.{Ensures, ◌↔◌, ◌⊎◌, ◌≡◌, refl, [], ◌∷◌, codes, err, true, false, equal}
use fb_utils.ProgramOptions.IniOptions.{
  Allowed, same_arguments, allow_all, allow, allow_prefix, lower_bound, insert, less, is_registered,
  contains,
}
use fb_utils.ProgramOptions.Prefixes.{Extends, is_registered_iff}
use fb_utils.ProgramOptions.Allowing.{IsSeparate, allow_all-IsSeparate}
use fb_utils.ProgramOptions.LogSettings.{from_unrecognized, put, is_setting, setting, sink}
use fb_utils.Spirit.{span, value_of}
use fb_utils.Spirit.Peg.{peg, peg-Documented}
use fb_utils.ProgramOptions.LogSettings.Named.{IsSetting, is_setting_iff}

-- The option that clashes is `b.c*`, and the message names `a*`, the one in front of it.
wrong_name :
    allow_all
      (codes "a*" ∷ codes "b.c*" ∷ codes "b.*" ∷ [])
      (record { options = []; prefixes = [] })
    ≡ err (same_arguments (codes "b.*") (codes "a"))
unfolding allow_all allow allow_prefix lower_bound insert less
wrong_name = refl

registered :
    is_registered
      (record { options = codes "x" ∷ []; prefixes = codes "a." ∷ codes "b." ∷ [] })
      (codes "b.c")
    ≡ true
unfolding is_registered lower_bound contains less equal
registered = refl

last_value :
    from_unrecognized peg
      (codes "Core.A" ∷ codes "1" ∷ codes "x" ∷ codes "2" ∷ codes "Core.A" ∷ codes "3" ∷ [])
      ([], false)
    ≡ ((codes "Core.A", codes "3") ∷ [], true)
unfolding from_unrecognized put equal is_setting setting sink span value_of
last_value = refl

abbrev two_prefixes : Allowed
two_prefixes = record { options = codes "x" ∷ []; prefixes = codes "a." ∷ codes "b." ∷ [] }

two_prefixes-IsSeparate : IsSeparate two_prefixes
unfolding less
two_prefixes-IsSeparate = (refl, refl, tt)

is_registered_iff_example : (is_registered two_prefixes (codes "b.c") ≡ true) ↔ (
    (contains (codes "b.c") two_prefixes.options ≡ true)
    ⊎ Extends (codes "b.c") two_prefixes.prefixes)
is_registered_iff_example = is_registered_iff two_prefixes (codes "b.c") two_prefixes-IsSeparate

allow_all-IsSeparate_example :
    Ensures IsSeparate (allow_all (codes "c.*" ∷ codes "a.b*" ∷ codes "y" ∷ []) two_prefixes)
allow_all-IsSeparate_example =
    allow_all-IsSeparate (codes "c.*" ∷ codes "a.b*" ∷ codes "y" ∷ []) two_prefixes
      two_prefixes-IsSeparate

is_setting_iff_example :
    (is_setting peg (codes "Sinks.1.Filter") ≡ true) ↔ IsSetting (codes "Sinks.1.Filter")
is_setting_iff_example = is_setting_iff peg peg-Documented (codes "Sinks.1.Filter")
