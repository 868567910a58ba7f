-- ===== src/Log/Tests.antt =====
-- Runs of utils/log.hpp, and an instance of its theorem.
use fb_utils.Prelude.{ℕ, ◌≡◌, refl, List, [], ◌∷◌, Str, codes, leb, arith}
use fb_utils.Log.{
  Rte, LogLevel, emergancy, alert, critical, error, warning, notice, info, debug, formatted,
  format_error, Method, info_method, trace_method, error_method, run, call, log,
}
use fb_utils.Log.Lines.{pieces, concat, texts, run-texts}

abbrev value : LogLevel → ℕ
value emergancy = 1
value alert = 2
value critical = 3
value error = 4
value warning = 5
value notice = 6
value info = 7
value debug = 8

-- Messages are their own formats; levels up to info go through.
abbrev rte : Rte Str
rte = record { value = value; can_log = λ logtype level. leb level 7; vformat = formatted }

abbrev calls : List (ℕ × Method × Str)
calls =
    (0, info_method, codes "up") ∷ (0, trace_method, codes "x") ∷ (0, error_method, codes "no") ∷ []

written :
    (run rte calls (record { buffer = codes "old"; calls = [] })).calls
    ≡ codes "up\n" ∷ codes "no\n" ∷ []
unfolding run call log
written = refl

-- The entry of a format error has no line feed: what follows is on its line.
abbrev strict : Rte Str
strict = record {
  value = value;
  can_log = λ logtype level. leb level 7;
  vformat =
      λ text. elim text [ [] ↦ format_error [] (codes "empty") | c ∷ rest ↦ formatted (c ∷ rest) ];
}

run_on :
    concat
      (run strict
        ((0, info_method, []) ∷ (0, info_method, codes "next") ∷ [])
        (record { buffer = []; calls = [] })).calls
    ≡ codes "unable format log entry : emptynext\n"
unfolding run call log
run_on = refl

run-texts_example :
    pieces [] (concat (run rte calls (record { buffer = codes "old"; calls = [] })).calls)
    ≡ texts rte calls
run-texts_example = run-texts rte calls (codes "old") (ground arith)
