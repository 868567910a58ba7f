-- ===== src/Flags/Ends.antt =====
-- The loop of `parse_string` of utils/flags/flags.hpp ends.
use fb_utils.Prelude.{
  ℕ, zero, suc, ◌≤◌, ◌<◌, ◌≡◌, refl, List, [], ◌∷◌, Option, none, some, Str, length, Result, ok,
  arith, Settles, Settles->>=,
}
use fb_utils.Flags.Numeric.{IntType}
use fb_utils.Flags.{
  break_at, merge, Next, stop, go_on, next_of, parse_from, parse_string, unknown_flag, from_string,
}

break_at-length : (delim : ℕ) (text : Str) → length (break_at delim text).1 ≤ length text
unfolding break_at
break_at-length delim [] = omega arith
break_at-length delim (c ∷ text) = ground (arith, break_at-length delim text)

next_of-shorter :
    (res : ℕ) (text : Str) (m : Option ℕ) (rest : Str) {bits : ℕ} {left : Str}
    → next_of res text m rest ≡ go_on bits left
    → length left < length rest
next_of-shorter res text none rest h = cc
next_of-shorter res text (some n) [] h = cc
next_of-shorter res text (some n) (d ∷ []) h = cc
next_of-shorter res text (some n) (d ∷ c ∷ more) h = ground arith

after :
    (fuel : ℕ) (type : IntType) (strings : List Str) (delim : ℕ) (next : Next)
    → ((bits : ℕ) (left : Str)
        → next ≡ go_on bits left
        → Settles (parse_from fuel type strings delim bits left))
    → Settles (elim next as (λ k. Result Str (ℕ × Str)) [
      | stop bits left ↦ ok (bits, left)
      | go_on bits left ↦ parse_from fuel type strings delim bits left
    ])
after fuel type strings delim (stop bits left) h = tt
after fuel type strings delim (go_on bits left) h = h bits left refl

parse_from-Settles :
    (fuel : ℕ) (type : IntType) (strings : List Str) (delim res : ℕ) (text : Str)
    → length text < fuel
    → Settles (parse_from fuel type strings delim res text)
unfolding parse_from
parse_from-Settles zero type strings delim res text h = omega arith
parse_from-Settles (suc fuel) type strings delim res text h =
    let broken = break_at delim text in
    let next = next_of res text (merge type strings res broken.0) broken.1 in
    after fuel type strings delim next (λ bits left e.
      parse_from-Settles fuel type strings delim bits left (
        omega (
          arith,
          next_of-shorter res text (merge type strings res broken.0) broken.1 e,
          break_at-length delim text,
        )))

unknown_flag-Settles : (parsed : ℕ × Str) → Settles (unknown_flag parsed)
unknown_flag-Settles (res, []) = tt
unknown_flag-Settles (res, c ∷ text) = tt

-- Where the type has a bit for each name, from_string ends, with the bits or with the exception for
-- an unknown flag, for every text.
pub from_string-Settles :
    (type : IntType) (strings : List Str) (delim : ℕ) (text : Str)
    → length strings ≤ type.width
    → Settles (from_string type strings delim text)
unfolding from_string parse_string
from_string-Settles type strings delim text h =
    Settles->>= (parse_string type strings delim text) unknown_flag
      (ground (arith, parse_from-Settles (suc (length text)) type strings delim 0 text))
      (λ parsed e. unknown_flag-Settles parsed)
