-- ===== src/ProgramOptions/ConsoleSink.antt =====
-- utils/program_options/console_sink.cpp: the factory of sinks that write to std::clog, which keeps
-- a weak pointer to the sink it has made last. Shared objects are identifiers with the number of
-- their owners; the parsers of filters and formats of Boost.Log are parameters.
pub mod Last
mod Tests
use fb_utils.Prelude.{ℕ, suc, ◌-◌, Option, none, some, ◌==◌, if◌then◌else◌, Str, Result, ok, ◌>>=◌}

-- `params["Filter"]` and `params["Format"]`.
pub record Params : Type 0 where
  pub filter : Option Str
  pub format : Option Str

-- What Boost.Log makes of them; an exception has a text.
pub record Parsers : Type 1 where
  pub Filter : Type 0
  pub Formatter : Type 0
  pub no_filter : Filter
  pub default_formatter : Formatter
  pub parse_filter : Str → Result Str Filter
  pub parse_formatter : Str → Result Str Formatter

module _ (b : Parsers) where
  pub record Sink : Type 0 where
    pub filter : b.Filter
    pub formatter : b.Formatter

  -- The sinks that have been made, the next identifier, the owners of each, and `console_sink_`.
  pub record World : Type 0 where
    pub sinks : ℕ → Option Sink
    pub fresh : ℕ
    pub owners : ℕ → ℕ
    pub console_sink : Option ℕ

  abbrev pub no_sinks : World
  no_sinks = record { sinks = λ id. none; fresh = 0; owners = λ id. 0; console_sink = none }

  abbrev pub filter_of : Option Str → Result Str b.Filter
  filter_of none = ok b.no_filter
  filter_of (some text) = b.parse_filter text

  abbrev pub formatter_of : Option Str → Result Str b.Formatter
  formatter_of none = ok b.default_formatter
  formatter_of (some text) = b.parse_formatter text

  -- The sink that the parameters ask for.
  unfoldable pub sink_of : Params → Result Str Sink
  sink_of params = do
    filt ← filter_of params.filter
    formatter ← formatter_of params.format
    ok (record { filter = filt; formatter = formatter })

  abbrev pub set : {A : Type 0} → ℕ → A → (ℕ → A) → ℕ → A
  set id a f other = if other == id then a else f other

  -- The caller owns the sink. A sink whose format does not parse goes with its only owner, and the
  -- weak pointer is as before.
  unfoldable pub create_sink : Params → World → Result Str (ℕ × World)
  unfolding sink_of
  create_sink params w = do
    sink ← sink_of params
    ok (
      w.fresh,
      record w {
        sinks = set w.fresh (some sink) w.sinks;
        fresh = suc w.fresh;
        owners = set w.fresh 1 w.owners;
        console_sink = some w.fresh;
      },
    )

  -- An owner goes.
  unfoldable pub reset : ℕ → World → World
  reset id w = record w { owners = set id (w.owners id - 1) w.owners }

  -- `lock`: a new owner, where there is still one.
  abbrev pub locked : Option ℕ → World → Option ℕ × World
  locked none w = (none, w)
  locked (some id) w =
      if w.owners id == 0
      then (none, w)
      else (some id, record w { owners = set id (suc (w.owners id)) w.owners })

  unfoldable pub console_sink : World → Option ℕ × World
  console_sink w = locked w.console_sink w
