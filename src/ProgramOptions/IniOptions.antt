-- ===== src/ProgramOptions/IniOptions.antt =====
-- `parse_ini` of utils/program_options/ini_parser.cpp.
use fb_utils.Prelude.{
  ℕ, ◌-◌, Bool, true, false, not, ◌&&◌, ◌||◌, List, [], ◌∷◌, Option, none, some, ltb, ◌==◌,
  if◌then◌else◌, Str, equal, starts_with, take, length, Result, ok, err, fault, timeout, ◌>>=◌,
}
use fb_utils.Ini.Error.{Error as IniError}
use fb_utils.Ini.Parser.{FileSystem, Pairs, parse_file}

-- The exceptions, a constructor for each `throw`, and those of `utils::ini::parse`.
pub data Error : Type 0 where
  abbreviated_name : Error
  same_arguments : Str → Str → Error
  unknown_option : Str → Error
  in_file : IniError → Error

abbrev pub Outcome {ℓ} : Type ℓ → Type ℓ
Outcome A = Result Error A

-- The order of std::string.
unfoldable pub less : Str → Str → Bool
less [] [] = false
less [] (y ∷ ys) = true
less (x ∷ xs) [] = false
less (x ∷ xs) (y ∷ ys) = ltb x y || (x == y && less xs ys)

-- `lower_bound` of a std::set, its elements in order: those in front of the position, and those
-- from it on.
unfoldable pub lower_bound : Str → List Str → List Str × List Str
lower_bound key [] = ([], [])
lower_bound key (x ∷ xs) =
    let (before, after) = lower_bound key xs in
    if less x key then (x ∷ before, after) else ([], x ∷ xs)

unfoldable pub insert : Str → List Str → List Str
unfolding less
insert key [] = key ∷ []
insert key (x ∷ xs) =
    let rest = insert key xs in
    if less x key then x ∷ rest else if less key x then key ∷ x ∷ xs else x ∷ xs

unfoldable pub contains : Str → List Str → Bool
contains key [] = false
contains key (x ∷ xs) = equal x key || contains key xs

-- The element that `--i` leads to.
abbrev pub last? {ℓ} : {A : Type ℓ} → List A → Option A
last? [] = none
last? (x ∷ []) = some x
last? (x ∷ y ∷ xs) = last? (y ∷ xs)

-- `allowed_options` and `allowed_prefixes`.
pub record Allowed : Type 0 where
  pub options : List Str
  pub prefixes : List Str

-- `if (i != end) if (i->find(prefix) == 0)`
abbrev pub extends_prefix : Str → List Str → Bool
extends_prefix prefix [] = false
extends_prefix prefix (i ∷ after) = starts_with i prefix

-- `if (i != begin) { --i; if (prefix.find(*i) == 0) … }`
abbrev pub has_prefix : Str → Option Str → Bool
has_prefix prefix none = false
has_prefix prefix (some i) = starts_with prefix i

-- `*i` in the message: `i` has been moved back wherever it was not at the beginning.
abbrev pub named_prefix : Option Str → List Str → Str
named_prefix (some i) after = i
named_prefix none [] = []
named_prefix none (i ∷ after) = i

-- The branch of a name that ends in '*'.
unfoldable pub allow_prefix : Str → Allowed → Outcome Allowed
unfolding lower_bound insert less
allow_prefix long_name allowed =
    let prefix = take (length long_name - 1) long_name in
    let (before, after) = lower_bound prefix allowed.prefixes in
    if extends_prefix prefix after || has_prefix prefix (last? before)
    then err (same_arguments long_name (named_prefix (last? before) after))
    else ok (record allowed { prefixes = insert prefix allowed.prefixes })

-- One round of the first loop.
unfoldable pub allow : Str → Allowed → Outcome Allowed
unfolding allow_prefix
allow long_name allowed =
    let added = record allowed { options = long_name ∷ allowed.options } in
    elim (last? long_name) [
      | none ↦ err abbreviated_name
      | some c ↦ if c == b'*' then allow_prefix long_name added else ok added
    ]

unfoldable pub allow_all : List Str → Allowed → Outcome Allowed
unfolding allow
allow_all [] allowed = ok allowed
allow_all (name ∷ names) allowed = do next ← allow name allowed; allow_all names next

-- `basic_option<char>`, as far as it is set.
pub record ParsedOption : Type 0 where
  pub string_key : Str
  pub value : Str
  pub unregistered : Bool
  pub original_tokens : List Str

-- Whether a key is one of the options, or begins with one of the prefixes.
unfoldable pub is_registered : Allowed → Str → Bool
unfolding lower_bound contains less
is_registered allowed key =
    contains key allowed.options || has_prefix key (last? (lower_bound key allowed.prefixes).0)

-- The lambda.
unfoldable pub to_option : Allowed → Bool → Str × Str → Outcome ParsedOption
unfolding is_registered
to_option allowed allow_unregistered (key, value) =
    let registered = is_registered allowed key in
    if not registered && not allow_unregistered
    then err (unknown_option key)
    else ok (record {
      string_key = key;
      value = value;
      unregistered = not registered;
      original_tokens = key ∷ value ∷ [];
    })

unfoldable pub to_options : Allowed → Bool → Pairs → Outcome (List ParsedOption)
unfolding to_option
to_options allowed allow_unregistered [] = ok []
to_options allowed allow_unregistered (pair ∷ pairs) = do
  option ← to_option allowed allow_unregistered pair
  options ← to_options allowed allow_unregistered pairs
  ok (option ∷ options)

-- The call of `utils::ini::parse`, of which the exceptions pass through.
unfoldable pub parse_values : FileSystem → ℕ → Str → Outcome Pairs
parse_values fs fuel filename = elim (parse_file fs fuel filename) [
  | ok pairs ↦ ok pairs
  | err e ↦ err (in_file e)
  | fault ↦ fault
  | timeout ↦ timeout
]

-- The list is that of the long names in the description.
unfoldable pub parse_ini : FileSystem → ℕ → Str → List Str → Bool → Outcome (List ParsedOption)
unfolding allow_all to_options parse_values
parse_ini fs fuel filename names allow_unregistered = do
  allowed ← allow_all names (record { options = []; prefixes = [] })
  pairs ← parse_values fs fuel filename
  to_options allowed allow_unregistered pairs
