-- ===== src/Ini/Tests.antt =====
-- Runs of utils/ini_parser/ini_parser.cpp at concrete inputs, and the instances of its theorems.
use mathlib.Core.Path.{subst}
use fb_utils.Prelude.{
  ◌≡◌, ◌↔◌, ◌⊎◌, starts_with, fault, refl, [], ◌∷◌, ◌++◌, some, none, Str, codes, equal,
  if◌then◌else◌, ok, err, true, false, All, Ensures, Settles, arith,
}
use fb_utils.Ini.Error.{at_line, in_file, include_cycle}
use fb_utils.Ini.Value.{trim, process_quoted_value, find_quote}
use fb_utils.Ini.Value.Quoted.{StopsAt, escape, find_quote_iff, process_quoted_value-escape}
use fb_utils.Ini.Token.{tokenize, token}
use fb_utils.Ini.Token.Shape.{IsToken}
use fb_utils.Ini.Token.Progress.{tokenize-IsToken}
use fb_utils.Ini.Parser.{FileSystem, Pairs, from_path, parse_stream, parse_file}
use fb_utils.Ini.Parser.Includes.{Visited}
use fb_utils.Ini.Parser.Total.{parse_file-Settles, parse_stream-Settles}
use fb_utils.Ini.Parser.Sections.{Section}

-- Two files, /a and /b; `/b` includes `/a`, and `/c` includes itself.
abbrev disk : FileSystem
disk = record {
  is_absolute = λ p. true;
  is_directory = λ p. false;
  parent_path = λ p. codes "/";
  join = λ p q. p ++ q;
  open_file = λ p.
      if equal p (codes "/a")
      then some (codes "k = 1\n")
      else if equal p (codes "/b")
      then some (codes "[s]\n#include /a\n\"q\\\"\" = \"v\\\\\" # c\n")
      else if equal p (codes "/c")
      then some (codes "\n#include /c")
      else none;
  canonical = λ p. some p;
  weakly_canonical = λ p. some p;
}

tokenize_entry :
    tokenize (codes " a b = c ; d")
    ≡ ok (token b't' (codes "a") ∷ token b't' (codes "b = c ") ∷ token b';' (codes " d") ∷ [])
unfolding tokenize
tokenize_entry = refl

parse_b :
    parse_file disk 3 (codes "/b") ≡ ok ((codes "k", codes "1") ∷ (codes "s.q\"", codes "v\\") ∷ [])
unfolding parse_file tokenize equal trim process_quoted_value find_quote
parse_b = refl

-- /c includes itself.
parse_c :
    parse_file disk 3 (codes "/c")
    ≡ err (
        in_file
          (codes "/c")
          (at_line 2 (include_cycle (codes "/c" ∷ []) (codes "/c") (codes "/c"))))
unfolding parse_file tokenize equal trim process_quoted_value find_quote
parse_c = refl

find_quote_iff_example :
    (find_quote (codes "a\\\"b\"c") ≡ ok (some 4)) ↔ StopsAt (codes "a\\\"b\"c") 4
find_quote_iff_example = find_quote_iff (codes "a\\\"b\"c") 4

process_quoted_value-escape_example :
    process_quoted_value (escape (codes "a\"\\")) ≡ ok (codes "a\"\\")
process_quoted_value-escape_example = process_quoted_value-escape (codes "a\"\\")

tokenize-IsToken_example : Ensures (All IsToken) (tokenize (codes "\"k\\\"\" = v # c"))
tokenize-IsToken_example = tokenize-IsToken (codes "\"k\\\"\" = v # c")

-- A disk with one file, which every path leads to.
abbrev one : FileSystem
one = record {
  is_absolute = λ p. true;
  is_directory = λ p. false;
  parent_path = λ p. p;
  join = λ p q. q;
  open_file = λ p. some (codes "k = 1\n");
  canonical = λ p. some (codes "/a");
  weakly_canonical = λ p. some (codes "/a");
}

a_listed : (p q : Str) → one.canonical p ≡ some q → Visited q (codes "/a" ∷ [])
unfolding from_path equal
a_listed p q e =
    let same : codes "/a" ≡ q = ground arith in
    subst (λ (x : Str). Visited x (codes "/a" ∷ [])) same (λ h. cc)

parse_file-Settles_example : Settles (parse_file one 2 (codes "x"))
parse_file-Settles_example =
    parse_file-Settles one (codes "/a" ∷ []) a_listed (λ p q e. refl) 2 (codes "x") (omega arith)

-- The same, but a path that does not begin with a slash is not absolute and stays as it is.
abbrev relative : FileSystem
relative = record one {
  is_absolute = λ p. starts_with p (codes "/");
  weakly_canonical = λ p. some p;
}

relative_fails : parse_stream relative 2 (codes "k = 1") (codes "nope.ini") ≡ fault
unfolding parse_stream
relative_fails = refl

relative_listed : (p q : Str) → relative.canonical p ≡ some q → Visited q (codes "/a" ∷ [])
relative_listed p q e = a_listed p q e

relative_absolute : (p q : Str) → relative.canonical p ≡ some q → relative.is_absolute q ≡ true
relative_absolute p q e = let same : codes "/a" ≡ q = ground arith in rw (← same) refl

parse_stream-Settles_example :
    Settles (parse_stream relative 2 (codes "#include x") (codes "nope.ini"))
    ⊎ ((root : Str) × (relative.weakly_canonical (codes "nope.ini") ≡ some root)
        × (relative.is_absolute root ≡ false)
        × (parse_stream relative 2 (codes "#include x") (codes "nope.ini") ≡ fault))
parse_stream-Settles_example =
    parse_stream-Settles relative (codes "/a" ∷ []) relative_listed relative_absolute 2
      (codes "#include x") (codes "nope.ini") (omega arith)

abbrev two_pairs : Pairs
two_pairs = (codes "a b", codes "c \"d\"") ∷ (codes "x", []) ∷ []

abbrev a_section : Section
a_section = (codes "s \"t", (codes "k", codes "[v]") ∷ [])
