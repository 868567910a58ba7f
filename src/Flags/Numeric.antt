-- ===== src/Flags/Numeric.antt =====
-- `parse_numeric` of utils/flags/flags.hpp, with `std::from_chars` for an integral type: a number
-- with an optional sign, which has to fit.
use fb_utils.Prelude.{
  ℕ, ◌+◌, ◌-◌, ◌*◌, ◌%◌, ◌^◌, Bool, ◌&&◌, ◌||◌, [], ◌∷◌, Option, none, some, ltb, leb, ◌==◌,
  if◌then◌else◌, Str,
}

infixl 5 ◌>>=◌
abbrev pub ◌>>=◌ {ℓ κ} : {A : Type ℓ} {B : Type κ} → Option A → (A → Option B) → Option B
none >>= f = none
some a >>= f = f a

pub record IntType : Type 0 where
  pub width : ℕ
  pub signed : Bool

-- The value of a digit.
abbrev pub digit : ℕ → ℕ → Option ℕ
digit base c =
    let value =
      if leb b'0' c && leb c b'9'
      then c - 48
      else if leb b'a' c && leb c b'f'
      then c - 87
      else if leb b'A' c && leb c b'F'
      then c - 55
      else base in
    if ltb value base then some value else none

-- `std::from_chars` where all of the text has to be read: the number, unless a byte is no digit.
unfoldable pub number_from : ℕ → ℕ → Str → Option ℕ
number_from base value [] = some value
number_from base value (c ∷ text) = do d ← digit base c; number_from base (value * base + d) text

abbrev pub unsigned_number : ℕ → Str → Option ℕ
unsigned_number base [] = none
unsigned_number base (c ∷ text) = number_from base 0 (c ∷ text)

-- A number that the type has, as bits.
abbrev pub in_range : ℕ → ℕ → Option ℕ
in_range limit value = if leb value limit then some value else none

abbrev pub negate : ℕ → ℕ → ℕ
negate width value = (2 ^ width - value) % 2 ^ width

abbrev pub negative_number : ℕ → ℕ → Str → Option ℕ
negative_number width base text = do
  value ← unsigned_number base text
  small ← in_range (2 ^ (width - 1)) value
  some (negate width small)

abbrev pub positive_number : ℕ → ℕ → Str → Option ℕ
positive_number limit base text = do value ← unsigned_number base text; in_range limit value

abbrev pub signed_from_chars : ℕ → ℕ → Str → Option ℕ
signed_from_chars width base [] = none
signed_from_chars width base (c ∷ text) =
    if c == b'-'
    then negative_number width base text
    else positive_number (2 ^ (width - 1) - 1) base (c ∷ text)

unfoldable pub from_chars : IntType → ℕ → Str → Option ℕ
unfolding number_from
from_chars type base text =
    if type.signed
    then signed_from_chars type.width base text
    else positive_number (2 ^ type.width - 1) base text

-- After the leading `0`, and after `0x`.
abbrev pub hexadecimal : IntType → Str → Option ℕ
hexadecimal type [] = none
hexadecimal type (c ∷ text) = from_chars type 16 (c ∷ text)

abbrev pub after_zero : IntType → Str → Option ℕ
after_zero type [] = some 0
after_zero type (c ∷ text) =
    if c == b'x' || c == b'X' then hexadecimal type text else from_chars type 10 (c ∷ text)

-- The assertion on an empty token is `none` as well; the only caller has none.
unfoldable pub parse_numeric : IntType → Str → Option ℕ
unfolding from_chars
parse_numeric type [] = none
parse_numeric type (c ∷ text) =
    if c == b'0' then after_zero type text else from_chars type 10 (c ∷ text)
