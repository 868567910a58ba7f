-- ===== src/Ini/Error.antt =====
-- The exceptions of utils/ini_parser/ini_parser.cpp, a constructor for each `throw`, with the
-- arguments of its message.
use fb_utils.Prelude.{ℕ, Str, List, Result}

pub data Error : Type 0 where
  -- process_key
  empty_key : Error
  unexpected_start : Str → Error
  -- process_include
  filename_expected_found : Str → Error
  cannot_open_include : Str → Str → Error
  include_cycle : List Str → Str → Str → Error
  filename_expected : Error
  unexpected_after : Str → Str → Error
  -- find_quote
  dangling_escape : Error
  invalid_escape : ℕ → Error
  -- ini_parser::operator()
  empty_section : Error
  token_after_section : Str → Error
  inconsistent_quotes : Str → Error
  unexpected : Str → Error
  unexpected_after_equals : Str → Error
  missing_value : Error
  at_line : ℕ → Error → Error
  -- parse
  cannot_open_file : Str → Error
  in_file : Str → Error → Error
  -- tokenize
  unmatched_quote : Error
  unmatched_bracket : Error
  -- std::filesystem::filesystem_error, thrown by canonical
  filesystem_error : Str → Error

abbrev pub Outcome {ℓ} : Type ℓ → Type ℓ
Outcome A = Result Error A
