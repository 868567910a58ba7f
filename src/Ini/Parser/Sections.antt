-- ===== src/Ini/Parser/Sections.antt =====
-- Sections written with quotes are read back by utils/ini_parser/ini_parser.cpp.
use fb_utils.Prelude.{◌≢◌, List, [], ◌∷◌, ◌++◌, map, Str, All}
use fb_utils.Ini.Value.{trim}
use fb_utils.Ini.Token.{Token}
use fb_utils.Ini.Parser.{Pairs, end_prefix}
use fb_utils.Ini.Parser.RoundTrip.{quote, print, print_entry, IsPrintable, NoNewline, with_prefix}

abbrev quoted : Str → Str
quoted v = b'"' ∷ (v ++ (b'"' ∷ []))

-- A section and its pairs.
abbrev pub Section : Type 0
Section = Str × Pairs

abbrev print_section : Str → Str
print_section s = b'[' ∷ (quote s ++ (b']' ∷ []))

abbrev pub print_sections : List Section → Str
print_sections [] = []
print_sections ((s, es) ∷ rest) = print_section s ++ (b'\n' ∷ (print es ++ print_sections rest))

-- The keys are behind the name of the section, which a dot ends.
abbrev pub section_pairs : List Section → Pairs
section_pairs [] = []
section_pairs ((s, es) ∷ rest) = map (with_prefix (end_prefix s)) es ++ section_pairs rest

-- A name that is not only spaces, without line breaks and closing brackets, and printable pairs.
abbrev pub IsSection : Section → Type 0
IsSection (s, es) = (trim s ≢ []) × NoNewline s × All (λ c. c ≢ b']') s × All IsPrintable es

section_lines : List Section → List Str
section_lines [] = []
section_lines ((s, es) ∷ rest) = print_section s ∷ (map print_entry es ++ section_lines rest)
