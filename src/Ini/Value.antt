-- ===== src/Ini/Value.antt =====
-- The character classes and the value functions of utils/ini_parser/ini_parser.cpp.
pub mod Quoted
use fb_utils.Prelude.{
  ℕ, zero, suc, ◌+◌, ◌-◌, Bool, true, false, not, List, [], ◌∷◌, ◌++◌, Option, none, some, ◌==◌,
  if◌then◌else◌, Str, codes, elem, starts_with, find_if, find_first_not_of, find_last_not_of,
  substr, drop, Result, ok, err, fault, timeout, length, is_nil,
}
use fb_utils.Ini.Error.{Outcome, dangling_escape, invalid_escape}

-- `escapee()`
abbrev pub escapee : Str
escapee = b'\\' ∷ b'"' ∷ []

abbrev pub token_delimiters : Str
token_delimiters = b' ' ∷ b'\t' ∷ b'\r' ∷ b'#' ∷ b';' ∷ b'=' ∷ []

abbrev pub space : Str
space = substr token_delimiters 0 3

abbrev pub comment : Str
comment = substr token_delimiters 3 2

abbrev pub is_space : ℕ → Bool
is_space c = elem c space

unfoldable pub trim : Str → Str
unfolding find_if find_last_not_of
trim value = elim (find_first_not_of value space 0) [
  | none ↦ []
  | some first ↦ elim (find_last_not_of value space) [
    | none ↦ drop first value
    | some last ↦ substr value first (last - first + 1)
  ]
]

-- `std::find(i, end, '\\')`: the bytes before the first backslash, and those from it on.
abbrev pub break_at : ℕ → Str → Str × Str
break_at c [] = ([], [])
break_at c (x ∷ xs) =
    let (run, rest) = break_at c xs in if x == c then ([], x ∷ xs) else (x ∷ run, rest)

-- The loop of `process_quoted_value`. An iterator is the bytes from it on: `lead` holds those from
-- `first` up to `i`, and `s` those from `i` on. The assertion is that two bytes are left at a
-- backslash.
unfoldable pub quoted_from : ℕ → Str → Str → Str → Outcome Str
quoted_from zero res lead s = timeout
quoted_from (suc fuel) res lead s =
    let (run, rest) = break_at b'\\' s in
    let res' = res ++ (lead ++ run) in
    elim rest [
      | [] ↦ ok res'
      | last ∷ after ↦ elim after [ [] ↦ fault | first ∷ i ↦ quoted_from fuel res' (first ∷ []) i ]
    ]

unfoldable pub process_quoted_value : Str → Outcome Str
unfolding quoted_from
process_quoted_value value = quoted_from (suc (length value)) [] [] value

-- `find_quote`, at the position `i` of the bytes left.
unfoldable pub find_quote_from : ℕ → Str → Outcome (Option ℕ)
find_quote_from i [] = ok none
find_quote_from i (c ∷ []) =
    if c == b'"' then ok (some i) else if c == b'\\' then err dangling_escape else ok none
find_quote_from i (c ∷ d ∷ cs) =
    let next = find_quote_from (suc i) (d ∷ cs) in
    let after_escape = find_quote_from (suc (suc i)) cs in
    if c == b'"'
    then ok (some i)
    else if c == b'\\'
    then if elem d escapee then after_escape else err (invalid_escape d)
    else next

unfoldable pub find_quote : Str → Outcome (Option ℕ)
unfolding find_quote_from
find_quote input = find_quote_from 0 input
