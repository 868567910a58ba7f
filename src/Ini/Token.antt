-- ===== src/Ini/Token.antt =====
-- `tokenize` of utils/ini_parser/ini_parser.cpp. Positions are those of the source; the loop runs
-- on fuel, a round for each byte and one more.
pub mod Shape
pub mod Progress
pub mod Steps
pub mod Brackets
use fb_utils.Prelude.{
  ℕ, zero, suc, ◌+◌, ◌-◌, Bool, true, false, ◌&&◌, ◌||◌, List, [], ◌∷◌, ◌++◌, Option, none, some,
  ◌==◌, if◌then◌else◌, Str, codes, starts_with, find_if, find_first_not_of, find_first_of,
  find_char, substr, at, drop, Result, ok, err, timeout, ◌>>=◌, length, is_nil,
}
use fb_utils.Ini.Error.{Outcome, unmatched_quote, unmatched_bracket}
use fb_utils.Ini.Value.{token_delimiters, comment, space, is_space, find_quote}

-- `token`, a std::pair: its kind and its text.
pub record Token : Type 0 where
  pub first : ℕ
  pub second : Str

abbrev pub token : ℕ → Str → Token
token kind text = record { first = kind; second = text }

-- The tokens so far, and the variable `last`.
pub record Scan : Type 0 where
  pub res : List Token
  pub last : ℕ

-- What one round of the loop does: go on, or return the tokens.
pub data Step : Type 0 where
  next : Scan → Step
  finished : List Token → Step

abbrev push : Scan → Token → ℕ → Step
push st t last = next (record { res = st.res ++ (t ∷ []); last = last })

abbrev incl : Str
incl = codes "include"

module _ (input : Str) where
  -- `default:`; the position is that of `first`, the option what the search for `last` gives.
  pub text_found : ℕ → Scan → Option ℕ
  text_found first st =
      let delimiters = if is_nil st.res then token_delimiters else comment in
      if st.last + 1 == length input then none else find_first_of input delimiters (first + 1)

  pub text_at : ℕ → Scan → Option ℕ → Step
  text_at first st none = finished (st.res ++ (token b't' (drop first input) ∷ []))
  text_at first st (some last) =
      push st (token b't' (substr input first (last - first)))
        (if is_space (at input last) then last else last - 1)

  unfoldable pub scan_text : ℕ → Scan → Step
  unfolding text_found text_at
  scan_text first st = text_at first st (text_found first st)

  -- `case '[':`
  pub bracket_found : ℕ → Scan → Option ℕ
  bracket_found first st =
      if st.last + 1 == length input then none else find_char input b']' (first + 1)

  pub bracket_at : ℕ → Scan → Option ℕ → Outcome Step
  bracket_at first st none = err unmatched_bracket
  bracket_at first st (some last) =
      ok (push st (token b'[' (substr input (first + 1) (last - first - 1))) last)

  pub scan_bracket : ℕ → Scan → Outcome Step
  unfolding scan_text bracket_found bracket_at
  scan_bracket first st =
      if is_nil st.res
      then bracket_at first st (bracket_found first st)
      else ok (scan_text first st)

  -- `case '#':` and `case ';':`; the test is that of the byte '#' and of the two conditions there.
  pub is_include : ℕ → ℕ → Scan → Bool
  is_include c first st =
      let last = first + length incl in
      c == b'#'
      && (is_nil st.res
          && (starts_with (drop (first + 1) input) incl
              && (last + 1 == length input || is_space (at input (last + 1)))))

  pub comment_at : ℕ → ℕ → Scan → Bool → Step
  comment_at c first st true =
      push st (token b'i' (substr input (first + 1) (length incl))) (first + length incl)
  comment_at c first st false = finished (st.res ++ (token c (drop (first + 1) input) ∷ []))

  pub scan_comment : ℕ → ℕ → Scan → Step
  unfolding is_include comment_at
  scan_comment c first st = comment_at c first st (is_include c first st)

  -- `case '"':`
  unfoldable pub quote_at : ℕ → Scan → Option ℕ → Outcome Step
  quote_at first st none = err unmatched_quote
  quote_at first st (some pos) =
      ok (push st (token b'"' (substr input (first + 1) pos)) (first + 1 + pos))

  unfoldable pub scan_quote : ℕ → Scan → Outcome Step
  unfolding quote_at
  scan_quote first st = do found ← find_quote (drop (first + 1) input); quote_at first st found

  -- The switch on `input[first]`.
  unfoldable pub scan_at : ℕ → Scan → Outcome Step
  unfolding scan_text scan_bracket scan_comment scan_quote
  scan_at first st =
      let c = at input first in
      if c == b'"'
      then scan_quote first st
      else if c == b'#' || c == b';'
      then ok (scan_comment c first st)
      else if c == b'='
      then ok (push st (token c (substr input first 1)) first)
      else if c == b'['
      then scan_bracket first st
      else ok (scan_text first st)

  -- The loop, at the position where the search for the next token starts.
  unfoldable pub tokenize_from : ℕ → ℕ → Scan → Outcome (List Token)
  unfolding scan_at find_if
  tokenize_from zero pos st = timeout
  tokenize_from (suc fuel) pos st = elim (find_first_not_of input space pos) [
    | none ↦ ok st.res
    | some first ↦
        scan_at first st
        >>= elim [ finished tokens ↦ ok tokens | next st' ↦ tokenize_from fuel (st'.last + 1) st' ]
  ]

abbrev pub start : Scan
start = record { res = []; last = 0 }

unfoldable pub tokenize : Str → Outcome (List Token)
unfolding tokenize_from
tokenize input = tokenize_from input (suc (length input)) 0 start
