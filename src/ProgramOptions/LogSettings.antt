-- ===== src/ProgramOptions/LogSettings.antt =====
-- utils/program_options/log.cpp: which of the unrecognised options are log settings. The grammar of
-- a setting's name is a term of Boost.Spirit's interface; the set-up of Boost.Log, which is given the
-- tree of settings, is a parameter.
pub mod Sections
pub mod Named
pub mod Trees
pub mod Values
pub mod Tokens
pub mod FromFile
mod Tests
use fb_utils.Spirit.{Spirit, whole}
use fb_utils.Prelude.{
  ℕ, Bool, true, false, Option, none, some, codes, List, [], ◌∷◌, if◌then◌else◌, Str, equal, ◌%◌,
  ◌==◌, length, Result, ok, fault, ◌>>=◌,
}
use fb_utils.ProgramOptions.IniOptions.{ParsedOption}

-- `boost::property_tree::ptree`, its values by path; `put` replaces a value that is there.
abbrev pub Tree : Type 0
Tree = List (Str × Str)

unfoldable pub put : Str → Str → Tree → Tree
put name value [] = (name, value) ∷ []
put name value ((n, v) ∷ tree) =
    if equal n name then (name, value) ∷ tree else (n, v) ∷ put name value tree

-- `emplace` of a std::map, which keeps a value that is there.
unfoldable pub emplace : Str → Str → Tree → Tree
emplace name value [] = (name, value) ∷ []
emplace name value ((n, v) ∷ map) =
    if equal n name then (n, v) ∷ map else (n, v) ∷ emplace name value map

-- `tree`, `options_map` and `has_log_settings`.
pub record Settings : Type 0 where
  pub tree : Tree
  pub options_map : Tree
  pub has_log_settings : Bool

abbrev pub dot : ℕ
dot = 46

-- `x3::uint_`
abbrev pub uint_max : ℕ
uint_max = 4294967295

abbrev pub is_some : {A : Type 0} → Option A → Bool
is_some none = false
is_some (some a) = true

-- What Boost.Log does with the settings, on its state; an exception has a text.
pub record Core (S : Type 0) : Type 0 where
  pub init_from_settings : Tree → S → Result Str S
  pub add_common_attributes : S → S

-- The end of both functions.
unfoldable pub set_up : {S : Type 0} → Core S → Tree → Bool → S → Result Str (Bool × S)
set_up core tree has_log_settings s = do
  next ← core.init_from_settings tree s
  ok (has_log_settings, core.add_common_attributes next)

module _ (x : Spirit) where
  -- What is in front of the last part; the number is not kept.
  unfoldable pub sink : x.Parser Unit
  sink =
      x.rule (λ _. tt)
        (x.then_ (x.lit (codes "Sinks.")) (x.seq (x.uint uint_max) (x.lit (codes "."))))

  unfoldable pub setting : x.Parser Str
  unfolding sink
  setting = x.then_ (x.alt sink (x.lit (codes "Core."))) (x.chars_except dot)

  unfoldable pub is_setting : Str → Bool
  unfolding setting
  is_setting name = is_some (whole (x.parse setting name))

  -- The first function: names and values by turns. A name at the end has no value, which the
  -- assertion on the size excludes.
  unfoldable pub from_unrecognized : List Str → Tree × Bool → Tree × Bool
  unfolding put is_setting
  from_unrecognized [] s = s
  from_unrecognized (name ∷ []) s = s
  from_unrecognized (name ∷ value ∷ rest) (tree, has_log_settings) =
      from_unrecognized rest
        (if is_setting name then (put name value tree, true) else (tree, has_log_settings))

  -- The branch of an option with two tokens in the second function.
  unfoldable pub add_tokens : Str → Str → Settings → Settings
  unfolding put emplace is_setting
  add_tokens name value s =
      if is_setting name
      then record s { tree = put name value s.tree; has_log_settings = true }
      else record s { options_map = emplace name value s.options_map }

  unfoldable pub add_option : Bool → List Str → Settings → Settings
  unfolding add_tokens
  add_option true (name ∷ value ∷ []) s = add_tokens name value s
  add_option _ _ s = s

  -- The second function, on the options that were parsed.
  unfoldable pub init_log : List ParsedOption → Settings → Settings
  unfolding add_option
  init_log [] s = s
  init_log (o ∷ options) s = init_log options (add_option o.unregistered o.original_tokens s)

  module _ {S : Type 0} (core : Core S) where
    -- The whole of the first function.
    unfoldable pub init_log_from_unrecognized : List Str → S → Result Str (Bool × S)
    unfolding from_unrecognized set_up
    init_log_from_unrecognized unrecognized s =
        let (tree, has_log_settings) = from_unrecognized unrecognized ([], false) in
        if length unrecognized % 2 == 0 then set_up core tree has_log_settings s else fault

    -- The whole of the second, with the options map that it leaves.
    unfoldable pub init_log_from_parsed :
        List ParsedOption → Tree → S → Result Str (Bool × S) × Tree
    unfolding init_log set_up
    init_log_from_parsed options options_map s =
        let settings =
          init_log options
            (record { tree = []; options_map = options_map; has_log_settings = false }) in
        (set_up core settings.tree settings.has_log_settings s, settings.options_map)
