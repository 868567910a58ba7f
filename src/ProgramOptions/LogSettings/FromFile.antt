-- ===== src/ProgramOptions/LogSettings/FromFile.antt =====
-- How the values of a configuration file come to utils/program_options/log.cpp, through parse_ini of
-- utils/program_options/ini_parser.cpp.
use fb_utils.Prelude.{
  ℕ, ◌≡◌, refl, ap, inl, inr, Bool, true, false, not, ◌&&◌, ◌||◌, [], ◌∷◌, ◌++◌, List, Option, none,
  some, Str, equal, equal_iff, if◌then◌else◌, Bool-cases, ok,
}
use fb_utils.Spirit.{Spirit}
use fb_utils.Ini.Parser.{FileSystem, Pairs}
use fb_utils.ProgramOptions.IniOptions.{
  Allowed, ParsedOption, last?, allow_all, parse_values, is_registered, to_option, to_options,
  parse_ini,
}
use fb_utils.ProgramOptions.LogSettings.{Tree, Core, set_up, is_setting, init_log_from_parsed}
use fb_utils.ProgramOptions.LogSettings.Trees.{earlier, value_in, has_values}
use fb_utils.ProgramOptions.LogSettings.Values.{given, init_log_from_parsed_lem}

-- The values of a key, in order.
unfoldable pub values_of : Str → Pairs → List Str
values_of name [] = []
values_of name ((key, value) ∷ pairs) =
    (if equal key name then value ∷ [] else []) ++ values_of name pairs

abbrev made : Allowed → Str → Str → ParsedOption
made allowed key value = record {
  string_key = key;
  value = value;
  unregistered = not (is_registered allowed key);
  original_tokens = key ∷ value ∷ [];
}

to_option_lem :
    (allowed : Allowed) (key value : Str)
    → to_option allowed true (key, value) ≡ ok (made allowed key value)
unfolding to_option
to_option_lem allowed key value = elim (Bool-cases (is_registered allowed key)) [
  | inl e ↦ rw (e) refl
  | inr e ↦ rw (e) refl
]

given-made :
    (allowed : Allowed) (name key value : Str) (options : List ParsedOption) (pairs : Pairs)
    → given name options ≡ (if is_registered allowed name then [] else values_of name pairs)
    → given name (made allowed key value ∷ options)
      ≡ (if is_registered allowed name then [] else values_of name ((key, value) ∷ pairs))
unfolding given values_of
given-made allowed name key value options pairs h = elim (Bool-cases (equal key name)) [
  | inl k ↦
      let same : is_registered allowed key ≡ is_registered allowed name =
        ap (λ text. is_registered allowed text) ((equal_iff key name).0 k) in
      elim (Bool-cases (is_registered allowed name)) [
        | inl e ↦ rw (same, h, e) refl
        | inr e ↦ rw (same, h, e, k) refl
      ]
  | inr k ↦ elim (Bool-cases (is_registered allowed key)) [
    | inl e ↦ rw (e, k) h
    | inr e ↦ rw (e, k) h
  ]
]

to_options_lem :
    (allowed : Allowed) (pairs : Pairs)
    → (options : List ParsedOption) × (to_options allowed true pairs ≡ ok options)
      × ((name : Str)
          → given name options ≡ (if is_registered allowed name then [] else values_of name pairs))
unfolding to_options given values_of
to_options_lem allowed [] = (
  [],
  refl,
  λ name. elim (Bool-cases (is_registered allowed name)) [
    | inl e ↦ rw (e) refl
    | inr e ↦ rw (e) refl
  ],
)
to_options_lem allowed ((key, value) ∷ pairs) =
    let (options, e, h) = to_options_lem allowed pairs in
    (
      made allowed key value ∷ options,
      rw (to_option_lem allowed key value, e) refl,
      λ name. given-made allowed name key value options pairs (h name),
    )

tree_value :
    (setting registered : Bool) (values : List Str)
    → (if setting then last? (if registered then [] else values) else none)
      ≡ (if setting && not registered then last? values else none)
tree_value true true values = refl
tree_value true false values = refl
tree_value false registered values = refl

earlier_none : (o : Option Str) → earlier o [] ≡ o
earlier_none none = refl
earlier_none (some v) = refl

left_value :
    (setting registered : Bool) (o : Option Str) (values : List Str)
    → (if setting then o else earlier o (if registered then [] else values))
      ≡ (if setting || registered then o else earlier o values)
left_value true registered o values = refl
left_value false true o values = earlier_none o
left_value false false o values = refl

-- Where the options are allowed and the file is parsed, parse_ini with unregistered options gives
-- options from which Boost.Log is set up with a tree that has, for each key that is the name of a
-- setting and not registered, its last value in the file, and nothing else; has_log_settings tells
-- whether there are any; and in the options map each other key that is not registered has the value
-- that it had, or else its first one in the file, and the remaining keys are as they were.
pub init_log_from_parsed-parse_ini :
    (x : Spirit) {S : Type 0} (core : Core S) (fs : FileSystem) (fuel : ℕ) (filename : Str)
    (names : List Str) (allowed : Allowed) (pairs : Pairs) (map : Tree) (s : S)
    → allow_all names (record { options = []; prefixes = [] }) ≡ ok allowed
    → parse_values fs fuel filename ≡ ok pairs
    → (options : List ParsedOption) × (tree : Tree) × (left : Tree) × (parse_ini fs fuel filename
          names true
        ≡ ok options)
      × (init_log_from_parsed x core options map s ≡ (set_up core tree (has_values tree) s, left))
      × ((name : Str)
          → (value_in name tree ≡ (
              if is_setting x name && not (is_registered allowed name)
              then last? (values_of name pairs)
              else none))
            × (value_in name left ≡ (
                if is_setting x name || is_registered allowed name
                then value_in name map
                else earlier (value_in name map) (values_of name pairs))))
unfolding parse_ini
init_log_from_parsed-parse_ini x core fs fuel filename names allowed pairs map s h k =
    let (options, e, g) = to_options_lem allowed pairs in
    let (tree, left, r, values) = init_log_from_parsed_lem x core options map s in
    (
      options,
      tree,
      left,
      rw (h, k) e,
      r,
      λ name. (
        rw ((values name).0, g name)
            (tree_value (is_setting x name) (is_registered allowed name) (values_of name pairs)),
        rw ((values name).1, g name)
            (left_value (is_setting x name) (is_registered allowed name) (value_in name map)
              (values_of name pairs)),
      ),
    )
