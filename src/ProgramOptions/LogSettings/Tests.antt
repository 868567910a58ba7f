-- ===== src/ProgramOptions/LogSettings/Tests.antt =====
-- Runs of utils/program_options/log.cpp, and instances of its theorems.
use fb_utils.Prelude.{
  All, ◌≡◌, ◌⊎◌, refl, Bool, true, false, not, ◌&&◌, ◌||◌, [], ◌∷◌, ◌++◌, List, none, some, Str,
  codes, equal, if◌then◌else◌, ok, err, fault, ◌%◌, length,
}
use fb_utils.Spirit.{span, value_of}
use fb_utils.Spirit.Peg.{peg}
use fb_utils.Ini.Parser.{FileSystem, Pairs, parse_file}
use fb_utils.Ini.Token.{tokenize}
use fb_utils.Ini.Value.{trim, process_quoted_value, find_quote}
use fb_utils.ProgramOptions.IniOptions.{
  Allowed, ParsedOption, last?, allow_all, allow, allow_prefix, parse_values, is_registered,
  parse_ini,
}
use fb_utils.ProgramOptions.LogSettings.{
  Tree, Core, put, emplace, set_up, setting, sink, is_setting, add_tokens, add_option, init_log,
  from_unrecognized, init_log_from_unrecognized, init_log_from_parsed,
}
use fb_utils.ProgramOptions.LogSettings.Trees.{value_in, has_values, earlier}
use fb_utils.ProgramOptions.LogSettings.Tokens.{
  IsTaken, tokens_of, init_log_from_unrecognized-Agrees,
}
use fb_utils.ProgramOptions.LogSettings.FromFile.{values_of, init_log_from_parsed-parse_ini}

abbrev has_bad : Tree → Bool
has_bad [] = false
has_bad ((n, v) ∷ tree) = equal n (codes "Core.Bad") || has_bad tree

-- Boost.Log keeps the settings; a setting of `Core.Bad` throws.
abbrev keeping : Core Tree
keeping = record {
  init_from_settings = λ tree s. if has_bad tree then err (codes "bad") else ok (s ++ tree);
  add_common_attributes = λ s. s ++ (codes "ThreadID", []) ∷ [];
}

abbrev option : Bool → Str → Str → ParsedOption
option unregistered key value = record {
  string_key = key;
  value = value;
  unregistered = unregistered;
  original_tokens = key ∷ value ∷ [];
}

abbrev options_read : List ParsedOption
options_read =
    option true (codes "Core.A") (codes "1")
    ∷ option false (codes "Core.B") (codes "2")
    ∷ option true (codes "x") (codes "3")
    ∷ option true (codes "Core.A") (codes "4")
    ∷ option true (codes "x") (codes "5")
    ∷ []

last_kept : init_log_from_parsed peg keeping options_read [] [] ≡ (
  ok (true, (codes "Core.A", codes "4") ∷ (codes "ThreadID", []) ∷ []),
  (codes "x", codes "3") ∷ [],
)
unfolding init_log_from_parsed set_up init_log add_option add_tokens put emplace equal is_setting
    setting sink span value_of
last_kept = refl

odd : init_log_from_unrecognized peg keeping (codes "Core.A" ∷ []) [] ≡ fault
unfolding init_log_from_unrecognized
odd = refl

thrown :
    init_log_from_unrecognized peg keeping (codes "Core.Bad" ∷ codes "1" ∷ []) []
    ≡ err (codes "bad")
unfolding init_log_from_unrecognized from_unrecognized set_up put equal is_setting setting sink span
    value_of
thrown = refl

init_log_from_unrecognized-Agrees_example :
    ((options : List ParsedOption) × All IsTaken options
      × (tokens_of options ≡ codes "Core.A" ∷ codes "1" ∷ [])
      × (init_log_from_unrecognized peg keeping (codes "Core.A" ∷ codes "1" ∷ []) []
          ≡ (init_log_from_parsed peg keeping options [] []).0))
    ⊎ ((length (codes "Core.A" ∷ codes "1" ∷ []) % 2 ≡ 1)
        × (init_log_from_unrecognized peg keeping (codes "Core.A" ∷ codes "1" ∷ []) [] ≡ fault))
init_log_from_unrecognized-Agrees_example =
    init_log_from_unrecognized-Agrees peg keeping (codes "Core.A" ∷ codes "1" ∷ []) [] []

-- A file with a setting, an option and another key.
abbrev settings_file : FileSystem
settings_file = record {
  is_absolute = λ p. true;
  is_directory = λ p. false;
  parent_path = λ p. p;
  join = λ p q. q;
  open_file = λ p. some (codes "Core.A=1\nport=2\nz=3\nCore.A=4\n");
  canonical = λ p. some p;
  weakly_canonical = λ p. some p;
}

abbrev file_pairs : Pairs
file_pairs =
    (codes "Core.A", codes "1")
    ∷ (codes "port", codes "2")
    ∷ (codes "z", codes "3")
    ∷ (codes "Core.A", codes "4")
    ∷ []

abbrev port_allowed : Allowed
port_allowed = record { options = codes "port" ∷ []; prefixes = [] }

port_is_allowed :
    allow_all (codes "port" ∷ []) (record { options = []; prefixes = [] }) ≡ ok port_allowed
unfolding allow_all allow allow_prefix
port_is_allowed = refl

file_is_parsed : parse_values settings_file 2 (codes "/a") ≡ ok file_pairs
unfolding parse_values parse_file tokenize equal trim process_quoted_value find_quote
file_is_parsed = refl

init_log_from_parsed-parse_ini_example :
    (options : List ParsedOption) × (tree : Tree) × (left : Tree) × (parse_ini settings_file 2
        (codes "/a")
        (codes "port" ∷ [])
        true
      ≡ ok options)
    × (init_log_from_parsed peg keeping options [] []
        ≡ (set_up keeping tree (has_values tree) [], left))
    × ((name : Str)
        → (value_in name tree ≡ (
            if is_setting peg name && not (is_registered port_allowed name)
            then last? (values_of name file_pairs)
            else none))
          × (value_in name left ≡ (
              if is_setting peg name || is_registered port_allowed name
              then value_in name []
              else earlier (value_in name []) (values_of name file_pairs))))
init_log_from_parsed-parse_ini_example =
    init_log_from_parsed-parse_ini peg keeping settings_file 2 (codes "/a") (codes "port" ∷ [])
      port_allowed file_pairs [] [] port_is_allowed file_is_parsed
