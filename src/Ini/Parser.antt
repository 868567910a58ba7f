-- ===== src/Ini/Parser.antt =====
-- The class ini_parser and the `parse` functions of utils/ini_parser/ini_parser.cpp.
mod Lines
pub mod Includes
pub mod Total
pub mod RoundTrip
pub mod Sections
use fb_utils.Prelude.{
  ℕ, zero, suc, ◌+◌, ◌-◌, Bool, true, false, not, ◌&&◌, ◌||◌, List, [], ◌∷◌, ◌++◌, Option, none,
  some, ◌==◌, if◌then◌else◌, Str, codes, equal, ends_with, substr, at, drop, Result, ok, err, fault,
  timeout, ◌>>=◌, length, is_nil,
}
use fb_utils.Ini.Error.{
  Error, Outcome, empty_key, unexpected_start, filename_expected_found, cannot_open_include,
  include_cycle, filename_expected, unexpected_after, empty_section, token_after_section,
  inconsistent_quotes, unexpected, unexpected_after_equals, missing_value, at_line,
  cannot_open_file, in_file, filesystem_error,
}
use fb_utils.Ini.Value.{trim, process_quoted_value, find_quote}
use fb_utils.Ini.Token.{Token, tokenize}

-- What the parser uses of std::filesystem and std::ifstream; a path is its text. `open` gives the
-- content of a file that can be opened, and `none` of `canonical` is the exception it throws.
pub record FileSystem : Type 0 where
  pub is_absolute : Str → Bool
  pub is_directory : Str → Bool
  pub parent_path : Str → Str
  pub join : Str → Str → Str
  pub open_file : Str → Option Str
  pub canonical : Str → Option Str
  pub weakly_canonical : Str → Option Str

abbrev pub Pairs : Type 0
Pairs = List (Str × Str)

-- The class ini_parser.
pub record IniParser : Type 0 where
  pub values : Pairs
  pub includes : List Str

unfoldable pub process_key : Token → Outcome Str
process_key key =
    if key.first == b't'
    then ok (trim key.second)
    else if key.first == b'"'
    then (do
      res ← process_quoted_value key.second
      if is_nil res || is_nil (trim res) then err empty_key else ok res)
    else err (unexpected_start key.second)

-- The inner switch of `process_include`.
unfoldable pub include_name : Token → Outcome Str
include_name t =
    if t.first == b't'
    then ok (trim t.second)
    else if t.first == b'"'
    then (do unquoted ← process_quoted_value t.second; ok (trim unquoted))
    else err (filename_expected_found t.second)

-- `includes_.back()`
abbrev pub back : List Str → Option Str
back [] = none
back (x ∷ []) = some x
back (x ∷ y ∷ xs) = back (y ∷ xs)

-- ~sentry()
abbrev pub pop_back : List Str → List Str
pop_back [] = []
pop_back (x ∷ []) = []
pop_back (x ∷ y ∷ xs) = x ∷ pop_back (y ∷ xs)

-- What follows from the first occurrence of the path on, as std::ranges::find gives it.
unfoldable pub from_path : Str → List Str → List Str
from_path path [] = []
from_path path (x ∷ xs) = if equal x path then x ∷ xs else from_path path xs

abbrev pub or_throw {ℓ} : {A : Type ℓ} → Option A → Error → Outcome A
or_throw none e = err e
or_throw (some a) e = ok a

module _ (fs : FileSystem) where
  open fs use {is_absolute, is_directory, parent_path, join, open_file, canonical, weakly_canonical}

  -- A call of `operator()`, which `process_include` makes again, is an argument: the content and
  -- the path of the file, and the parser.
  abbrev pub Run : Type 0
  Run = Str → Str → IniParser → Outcome IniParser

  -- The check for a cycle, at what `find` gives, and the call on the new file.
  unfoldable pub enter_include : Run → Str → Str → Str → IniParser → List Str → Outcome IniParser
  enter_include run filename f target p [] = run f target p
  enter_include run filename f target p (i ∷ rest) = err (include_cycle (i ∷ rest) filename target)

  -- With the path of the file that includes.
  unfoldable pub include_from : Run → Str → IniParser → Option Str → Outcome IniParser
  unfolding from_path enter_include
  include_from run filename p none = fault
  include_from run filename p (some includer) =
      let file_path =
        if is_absolute filename then filename else join (parent_path includer) filename in
      do
        f ← or_throw (open_file file_path) (cannot_open_include filename file_path)
        target ← or_throw (canonical file_path) (filesystem_error file_path)
        enter_include run filename f target p (from_path target p.includes)

  unfoldable pub open_include : Run → Str → IniParser → Outcome IniParser
  unfolding include_from
  open_include run filename p = include_from run filename p (back p.includes)

  unfoldable pub process_include : Run → List Token → IniParser → Outcome IniParser
  unfolding open_include include_name
  process_include run [] p = fault
  process_include run (t ∷ []) p = err filename_expected
  process_include run (t ∷ u ∷ []) p = do
    filename ← include_name u
    if is_nil filename then err filename_expected else open_include run filename p
  process_include run (t ∷ u ∷ v ∷ more) p = err (unexpected_after v.second u.second)

-- The tokens in front of the first comment.
unfoldable pub erase_comment : List Token → List Token
erase_comment [] = []
erase_comment (t ∷ ts) = if t.first == b'#' || t.first == b';' then [] else t ∷ erase_comment ts

-- `if (!prefix.ends_with('.')) prefix += '.';`
abbrev pub end_prefix : Str → Str
end_prefix prefix = if ends_with prefix b'.' then prefix else prefix ++ (b'.' ∷ [])

-- A section whose name begins with a quote; the option is what `find_quote` gives.
unfoldable pub quoted_section : Token → Str → Option ℕ → Outcome Str
quoted_section t name none = err (inconsistent_quotes t.second)
quoted_section t name (some pos) =
    if not (pos == length name - 2) then err (inconsistent_quotes t.second) else (do
      prefix ← process_quoted_value (substr name 1 (length name - 2))
      if is_nil (trim prefix) then err empty_section else ok (end_prefix prefix))

-- `case '[':`, the new value of `prefix`; the list is that of the other tokens.
unfoldable pub section_prefix : Token → List Token → Outcome Str
unfolding quoted_section
section_prefix t others =
    let name = trim t.second in
    if length name == 0
    then err empty_section
    else if not (is_nil others)
    then err (token_after_section t.second)
    else if at name 0 == b'"'
    then (do pos ← find_quote (drop 1 name); quoted_section t name pos)
    else ok (end_prefix name)

-- The value of a line of at least three tokens; `third` is `tokens[2]`.
unfoldable pub entry_value : Token → List Token → Outcome Str
entry_value third [] =
    if third.first == b't'
    then ok (trim third.second)
    else if third.first == b'"'
    then process_quoted_value third.second
    else err (unexpected_after_equals third.second)
entry_value third (fourth ∷ more) =
    if third.first == b't' || third.first == b'"'
    then err (unexpected fourth.second)
    else err (unexpected_after_equals third.second)

-- The inner switch on the number of tokens.
unfoldable pub entry_tail : List Token → Outcome Str
unfolding entry_value
entry_tail [] = err missing_value
entry_tail (second ∷ []) =
    if not (second.first == b'=') then err (unexpected second.second) else ok []
entry_tail (second ∷ third ∷ more) =
    if not (second.first == b'=') then err (unexpected second.second) else entry_value third more

-- `default:`, the pair that is added to `values_`.
unfoldable pub entry : Str → Token → List Token → Outcome (Str × Str)
unfolding process_key entry_tail
entry prefix t others = do
  name ← process_key t
  value ← entry_tail others
  ok (prefix ++ name, value)

-- `catch (std::runtime_error const& e)`, which throws another exception.
abbrev pub rethrow {ℓ} : {A : Type ℓ} → (Error → Error) → Outcome A → Outcome A
rethrow f (ok a) = ok a
rethrow f (err e) = err (f e)
rethrow f fault = fault
rethrow f timeout = timeout

-- The lines that `getline` reads.
unfoldable pub lines : Str → List Str
lines [] = []
lines (c ∷ cs) =
    let rest = lines cs in
    if c == b'\n' then [] ∷ rest else elim rest [ [] ↦ (c ∷ []) ∷ [] | l ∷ ls ↦ (c ∷ l) ∷ ls ]

module _ (fs : FileSystem) where
  -- The switch on the first token.
  unfoldable pub process_tokens : Run fs → List Token → IniParser × Str → Outcome (IniParser × Str)
  unfolding process_include section_prefix entry
  process_tokens run [] (p, prefix) = ok (p, prefix)
  process_tokens run (t ∷ others) (p, prefix) =
      if t.first == b'i'
      then (do q ← process_include fs run (t ∷ others) p; ok (q, prefix))
      else if t.first == b'['
      then (do prefix' ← section_prefix t others; ok (p, prefix'))
      else do
        pair ← entry prefix t others
        ok (record p { values = p.values ++ (pair ∷ []) }, prefix)

  -- The body of the loop, with its `try`.
  unfoldable pub parse_line : Run fs → Str → IniParser × Str → Outcome (IniParser × Str)
  unfolding process_tokens erase_comment
  parse_line run line s = do tokens ← tokenize line; process_tokens run (erase_comment tokens) s

  unfoldable pub parse_lines : Run fs → ℕ → List Str → IniParser × Str → Outcome (IniParser × Str)
  unfolding parse_line
  parse_lines run line_n [] s = ok s
  parse_lines run line_n (line ∷ rest) s = do
    s' ← rethrow (at_line line_n) (parse_line run line s)
    parse_lines run (suc line_n) rest s'

  -- `operator()`, on fuel for the depth of the includes; its first line is the assertion.
  unfoldable pub run_parser : ℕ → Run fs
  unfolding parse_lines lines
  run_parser zero content filename p = timeout
  run_parser (suc fuel) content filename p =
      let entered = record p { includes = p.includes ++ (filename ∷ []) } in
      let call = run_parser fuel in
      if fs.is_absolute filename
      then (do
        (q, prefix) ← parse_lines call 1 (lines content) (entered, [])
        ok (record q { includes = pop_back q.includes }))
      else fault

  -- `parse_`
  unfoldable pub parse_ : ℕ → Str → Str → Outcome Pairs
  unfolding run_parser
  parse_ fuel content filename = do
    parser ← run_parser fuel content filename (record { values = []; includes = [] })
    ok parser.values

  -- `parse(std::istream&, std::filesystem::path const&)`
  unfoldable pub parse_stream : ℕ → Str → Str → Outcome Pairs
  unfolding parse_
  parse_stream fuel content filename =
      let named =
        if fs.is_directory filename then fs.join filename (codes "this.ini") else filename in
      do
        root ← or_throw (fs.weakly_canonical named) (filesystem_error named)
        parse_ fuel content root

  -- `parse(std::filesystem::path const&)`
  unfoldable pub parse_file : ℕ → Str → Outcome Pairs
  unfolding parse_
  parse_file fuel filename = do
    content ← or_throw (fs.open_file filename) (cannot_open_file filename)
    rethrow (in_file filename) (do
      root ← or_throw (fs.canonical filename) (filesystem_error filename)
      parse_ fuel content root)
