-- ===== src/Flags/Tests.antt =====
-- Runs of utils/flags/flags.hpp, and an instance of its theorem.
use fb_utils.Prelude.{
  drop, some, none, ◌↔◌, true, ◌≡◌, refl, List, [], ◌∷◌, codes, Str, equal, arith, ok, err, Settles,
  false, digits_on, show,
}
use fb_utils.Flags.Numeric.{IntType, parse_numeric, from_chars, number_from}
use fb_utils.Flags.{
  to_string, flags_from, from_string, parse_string, parse_from, break_at, token_value, index_of,
}
use fb_utils.Flags.Names.{Names, unsigned_type}
use fb_utils.Flags.RoundTrip.{from_string-to_string}
use fb_utils.Flags.Parser.{parse, parse-from_string_iff}
use fb_utils.Flags.Ends.{from_string-Settles}

abbrev names : List Str
names = codes "read" ∷ codes "write" ∷ []

abbrev byte : IntType
byte = record { width = 8; signed = false }

printed : to_string byte 133 names b'|' ≡ codes "read|4|128"
unfolding to_string flags_from show digits_on
printed = refl

parsed : from_string byte names b'|' (codes "write||0x84|1") ≡ ok 135
unfolding from_string parse_string parse_from break_at token_value index_of equal parse_numeric
    from_chars number_from
parsed = refl

-- A number that the type does not have is an unknown flag.
out_of_range : from_string byte names b'|' (codes "read|256|1") ≡ err (codes "256|1")
unfolding from_string parse_string parse_from break_at token_value index_of equal parse_numeric
    from_chars number_from
out_of_range = refl

from_string-Settles_example : Settles (from_string byte names b'|' (codes "read|256|1"))
from_string-Settles_example = from_string-Settles byte names b'|' (codes "read|256|1") (omega arith)

names-Names : Names 8 b'|' names
names-Names = record {
  few = omega arith;
  words = ground arith;
  distinct = ground arith;
  delim_no_digit = λ d. omega arith;
}

from_string-to_string_example :
    from_string (unsigned_type 8) names b'|' (to_string (unsigned_type 8) 133 names b'|') ≡ ok 133
from_string-to_string_example = from_string-to_string 8 b'|' names 133 names-Names (omega arith)

-- The top bit of a signed type is written as a number that the type does not have.
abbrev signed_byte : IntType
signed_byte = record { width = 8; signed = true }

top_bit : to_string signed_byte 129 names b'|' ≡ codes "read|128"
unfolding to_string flags_from show digits_on
top_bit = refl

top_bit_unread : from_string signed_byte names b'|' (codes "read|128") ≡ err (codes "128")
unfolding from_string parse_string parse_from break_at token_value index_of equal parse_numeric
    from_chars number_from
top_bit_unread = refl

-- What is unknown is left, and nothing is read where it comes first.
partly_read : parse (λ text. text) byte names b'|' (codes "read|x") ≡ ok (some (1, codes "x"))
unfolding parse parse_string parse_from break_at token_value index_of equal parse_numeric from_chars
    number_from
partly_read = refl

not_read : parse (λ text. text) byte names b'|' (codes "x|read") ≡ ok none
unfolding parse parse_string parse_from break_at token_value index_of equal parse_numeric from_chars
    number_from
not_read = refl

parse-from_string_iff_example :
    (parse (drop 1) byte names b'|' (codes " write") ≡ ok (some (2, [])))
    ↔ (from_string byte names b'|' (codes "write") ≡ ok 2)
parse-from_string_iff_example =
    parse-from_string_iff (drop 1) byte names b'|' (codes " write") 2 (ground arith)
