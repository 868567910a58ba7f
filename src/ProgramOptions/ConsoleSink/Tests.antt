-- ===== src/ProgramOptions/ConsoleSink/Tests.antt =====
-- Runs of utils/program_options/console_sink.cpp, and an instance of its theorem.
use fb_utils.Prelude.{ℕ, ◌≡◌, ◌⊎◌, refl, List, [], ◌∷◌, none, some, Str, codes, ok, err}
use fb_utils.ProgramOptions.ConsoleSink.{
  Parsers, no_sinks, console_sink, sink_of, create_sink, reset,
}
use fb_utils.ProgramOptions.ConsoleSink.Last.{
  Command, create, lock, drop, run, last_made, console_sink-Last,
}

-- Filters and formatters as their texts; no text begins with a question mark.
abbrev texts : Parsers
texts = record {
  Filter = Str;
  Formatter = Str;
  no_filter = [];
  default_formatter = [];
  parse_filter = λ text. elim text [ [] ↦ err (codes "empty filter") | c ∷ rest ↦ ok (c ∷ rest) ];
  parse_formatter = λ text. ok text;
}

-- A sink, a creation that throws, another owner, and one owner less.
abbrev session : List Command
session =
    create (record { filter = some (codes "a"); format = none })
    ∷ create (record { filter = some []; format = none })
    ∷ lock
    ∷ drop 0
    ∷ []

still_there : (console_sink texts (run texts session (no_sinks texts))).0 ≡ some 0
unfolding console_sink run create_sink sink_of reset
still_there = refl

gone : (console_sink texts (run texts (drop 0 ∷ []) (run texts session (no_sinks texts)))).0 ≡ none
unfolding console_sink run create_sink sink_of reset
gone = refl

console_sink-Last_example :
    ((id : ℕ) × ((console_sink texts (run texts session (no_sinks texts))).0 ≡ some id)
      × ((run texts session (no_sinks texts)).sinks id ≡ last_made texts session none))
    ⊎ (((console_sink texts (run texts session (no_sinks texts))).0 ≡ none)
        × ((last_made texts session none ≡ none)
            ⊎ ((id : ℕ) × ((run texts session (no_sinks texts)).console_sink ≡ some id)
                × ((run texts session (no_sinks texts)).owners id ≡ 0))))
console_sink-Last_example = console_sink-Last texts session
