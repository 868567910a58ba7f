-- ===== src/Flags.antt =====
-- utils/flags/flags.hpp: a set of flags as the bits of a number, and its text. A value of the type
-- `T` is its bit pattern; the type is given by its width and whether it is signed.
use fb_utils.Prelude.{
  ℕ, zero, suc, ◌+◌, ◌-◌, ◌*◌, ◌/◌, ◌%◌, ◌^◌, Bool, true, false, not, ◌&&◌, ◌||◌, List, [], ◌∷◌,
  ◌++◌, Option, none, some, ltb, leb, ◌==◌, if◌then◌else◌, Str, equal, take, length, get_elem?,
  is_nil, show, Result, ok, err, fault, timeout, ◌>>=◌,
}
use Prim.Native.Nat.{bit_or}
use fb_utils.Flags.Numeric.{IntType, parse_numeric}
pub mod Numeric
pub mod Ends
mod Bits
mod Decimal
pub mod Names
pub mod RoundTrip
pub mod Parser
pub mod Tests

-- The text of bit `i`: its name, or its value where it has none.
abbrev pub flag_name : List Str → ℕ → Str
flag_name strings i = elim (get_elem? strings i) [ some s ↦ s | none ↦ show (2 ^ i) ]

-- The loop, which shifts the value by a bit each round: the width bounds the rounds.
unfoldable pub flags_from : ℕ → List Str → ℕ → ℕ → ℕ → Str
flags_from zero strings delim i value = []
flags_from (suc fuel) strings delim i value =
    let rest = flags_from fuel strings delim (suc i) (value / 2) in
    let this = if value % 2 == 1 then flag_name strings i ++ delim ∷ [] else [] in
    if value == 0 then [] else this ++ rest

-- `res.pop_back()`
abbrev pub pop_back : Str → Str
pop_back text = take (length text - 1) text

unfoldable pub to_string : IntType → ℕ → List Str → ℕ → Str
unfolding flags_from
to_string type value strings delim = pop_back (flags_from type.width strings delim 0 value)

-- `std::find` of the token among the names.
unfoldable pub index_of : ℕ → List Str → Str → Option ℕ
index_of i [] token = none
index_of i (s ∷ strings) token = if equal s token then some i else index_of (suc i) strings token

-- The bits that a token stands for.
unfoldable pub token_value : IntType → List Str → Str → Option ℕ
unfolding parse_numeric index_of
token_value type strings token = elim (index_of 0 strings token) [
  | some i ↦ some (2 ^ i % 2 ^ type.width)
  | none ↦ parse_numeric type token
]

-- The text in front of the delimiter, and the text from it on.
unfoldable pub break_at : ℕ → Str → Str × Str
break_at delim [] = ([], [])
break_at delim (c ∷ text) =
    let (token, rest) = break_at delim text in
    if c == delim then ([], c ∷ text) else (c ∷ token, rest)

-- What a token adds to the bits; an empty one is passed over.
abbrev pub with_bits : ℕ → Option ℕ → Option ℕ
with_bits res none = none
with_bits res (some value) = some (bit_or res value)

abbrev pub merge : IntType → List Str → ℕ → Str → Option ℕ
merge type strings res [] = some res
merge type strings res (c ∷ token) = with_bits res (token_value type strings (c ∷ token))

-- How a round ends: with the bits and the text that has not been read, or with the bits and the
-- text of the next round.
pub data Next : Type 0 where
  stop : ℕ → Str → Next
  go_on : ℕ → Str → Next

abbrev pub next_of : ℕ → Str → Option ℕ → Str → Next
next_of res text none rest = stop res text
next_of res text (some next) [] = stop next []
next_of res text (some next) (d ∷ []) = stop next []
next_of res text (some next) (d ∷ c ∷ more) = go_on next (c ∷ more)

-- The loop of `parse_string`, with more fuel than bytes.
unfoldable pub parse_from : ℕ → IntType → List Str → ℕ → ℕ → Str → Result Str (ℕ × Str)
unfolding break_at
parse_from zero type strings delim res text = timeout
parse_from (suc fuel) type strings delim res text =
    let (token, rest) = break_at delim text in
    elim (next_of res text (merge type strings res token) rest) [
      | stop bits left ↦ ok (bits, left)
      | go_on bits left ↦ parse_from fuel type strings delim bits left
    ]

unfoldable pub parse_string : IntType → List Str → ℕ → Str → Result Str (ℕ × Str)
unfolding parse_from
parse_string type strings delim text =
    if ltb type.width (length strings)
    then fault
    else parse_from (suc (length text)) type strings delim 0 text

abbrev pub unknown_flag : ℕ × Str → Result Str ℕ
unknown_flag (res, []) = ok res
unknown_flag (res, c ∷ text) = err (c ∷ text)

-- The exception has the text from the unknown flag on.
unfoldable pub from_string : IntType → List Str → ℕ → Str → Result Str ℕ
unfolding parse_string
from_string type strings delim text = do
  parsed ← parse_string type strings delim text
  unknown_flag parsed
