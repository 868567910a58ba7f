-- ===== src/ProgramOptions/Chrono.antt =====
-- utils/program_options/chrono.hpp and validators/chrono.hpp: the grammar of a duration and the
-- validators. A duration is one of the six of std::chrono with a count of 64 bits, signed; where a
-- conversion overflows, which is undefined, the result is `fault`. The parser of Boost.Date_time
-- is a parameter.
pub mod Units
pub mod Forms
pub mod Parsed
pub mod Durations
pub mod Lists
use fb_utils.Prelude.{
  ℕ, ◌*◌, ◌/◌, List, [], ◌∷◌, ◌++◌, Option, none, some, if◌then◌else◌, leb, Str, codes, Result, ok,
  err, fault, timeout, ◌>>=◌,
}
use fb_utils.Spirit.{whole, Spirit}
use fb_utils.ProgramOptions.Validators.{
  Validators, ValidateError, invalid_option_value, runtime_error, or_throw, validate_with,
}

pub data TimeUnit : Type 0 where
  nanoseconds : TimeUnit
  microseconds : TimeUnit
  milliseconds : TimeUnit
  seconds : TimeUnit
  minutes : TimeUnit
  hours : TimeUnit

-- The period, in nanoseconds.
abbrev pub period : TimeUnit → ℕ
period nanoseconds = 1
period microseconds = 1000
period milliseconds = 1000000
period seconds = 1000000000
period minutes = 60000000000
period hours = 3600000000000

-- The largest count.
abbrev pub rep_max : ℕ
rep_max = 9223372036854775807

abbrev pub Cast : Type 0
Cast = ℕ → Result ValidateError ℕ

abbrev pub in_rep : Cast
in_rep n = if leb n rep_max then ok n else fault

-- `duration_cast`, which multiplies or divides by the ratio of the periods.
unfoldable pub duration_cast : TimeUnit → TimeUnit → Cast
duration_cast to from n =
    if leb (period to) (period from)
    then in_rep (n * (period from / period to))
    else ok (n / (period to / period from))

-- The symbols.
abbrev pub units : List (Str × TimeUnit)
units =
    (codes "ns", nanoseconds)
    ∷ (codes "us", microseconds)
    ∷ (codes "ms", milliseconds)
    ∷ (codes "s", seconds)
    ∷ (codes "m", minutes)
    ∷ (codes "h", hours)
    ∷ []

-- `parsed_duration`: a number, and the function that converts it.
abbrev pub ParsedDuration : Type 0
ParsedDuration = ℕ × Cast

-- `transform_attribute::post`
abbrev pub post : ParsedDuration → Result ValidateError ℕ
post (n, cast) = cast n

abbrev pub post_all : List ParsedDuration → Result ValidateError (List ℕ)
post_all [] = ok []
post_all (p ∷ parsed) = post p >>= (λ n. post_all parsed >>= (λ counts. ok (n ∷ counts)))

-- What a parser has read is converted before the end is looked at.
abbrev pub converted :
    {A B : Type 0}
    → (A → Result ValidateError B)
    → Option (A × Str)
    → Result ValidateError (Option (B × Str))
converted f none = ok none
converted f (some (a, rest)) = f a >>= (λ b. ok (some (b, rest)))

-- A time point's parse: `posix_time::time_from_string`, which gives the text of its exception, and
-- the conversion of what it has read.
abbrev pub or_nested : {P T : Type 0} → (P → T) → Str → Result Str P → Result ValidateError T
or_nested to_time_point value (ok ptime) = ok (to_time_point ptime)
or_nested to_time_point value (err what) =
    err (runtime_error (codes "can't parse date-time \"" ++ value ++ codes "\" : " ++ what))
or_nested to_time_point value fault = fault
or_nested to_time_point value timeout = timeout

module _ (x : Spirit) where
  -- The unit behind the number.
  unfoldable pub unit_part : TimeUnit → x.Parser Cast
  unfolding duration_cast
  unit_part to = x.alt (x.rule (duration_cast to) (x.symbols units)) (x.attr ok)

  unfoldable pub duration : TimeUnit → x.Parser ParsedDuration
  unfolding unit_part
  duration to = x.rule (λ p. p) (x.seq (x.uint rep_max) (unit_part to))

  unfoldable pub durations : TimeUnit → x.Parser (List ParsedDuration)
  unfolding duration
  durations to = x.separated (duration to) (x.lit (codes ","))

  module _ (c : Validators) where
    unfoldable pub validate_duration :
        TimeUnit → Option ℕ → List Str → Result ValidateError (Option ℕ)
    unfolding duration
    validate_duration to = validate_with c (λ value.
        converted post (x.parse (duration to) value)
        >>= (λ res. or_throw (invalid_option_value (codes "invalid duration")) (whole res)))

    unfoldable pub validate_durations :
        TimeUnit → Option (List ℕ) → List Str → Result ValidateError (Option (List ℕ))
    unfolding durations
    validate_durations to = validate_with c (λ value.
        converted post_all (x.parse (durations to) value)
        >>= (λ res. or_throw (invalid_option_value (codes "invalid durations list")) (whole res)))

module _ {P T : Type 0} (time_from_string : Str → Result Str P) (to_time_point : P → T) where
  unfoldable pub validate_time_point :
      Validators → Option T → List Str → Result ValidateError (Option T)
  validate_time_point c =
      validate_with c (λ value. or_nested to_time_point value (time_from_string value))
