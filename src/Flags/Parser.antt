-- ===== src/Flags/Parser.antt =====
-- utils/flags/parser/flags.hpp: the parser of Boost.Spirit around `parse_string`. `skip_over`, which
-- passes what the context's skipper takes, is a parameter; a parser that fails is `none`.
use fb_utils.Prelude.{
  ℕ, ◌≤◌, ◌≡◌, ◌↔◌, inl, inr, false, List, [], ◌∷◌, Option, none, some, ltb, ◌==◌, if◌then◌else◌,
  Str, length, Result, ok, err, fault, timeout, ◌>>=◌, arith, Bool-cases,
}
use fb_utils.Spirit.{with_attribute}
use fb_utils.Flags.Numeric.{IntType}
use fb_utils.Flags.{parse_string, parse_from, break_at, from_string, unknown_flag}

-- `tmp != first` after `parse_string`, which has left `rest` of `first`.
abbrev pub if_moved : Str → ℕ × Str → Option (ℕ × Str)
if_moved first (val, rest) = if length rest == length first then none else some (val, rest)

-- From the text that the skipper has left.
abbrev pub parse_skipped : IntType → List Str → ℕ → Str → Result Str (Option (ℕ × Str))
parse_skipped type strings delim [] = ok (some (0, []))
parse_skipped type strings delim (c ∷ first) =
    parse_string type strings delim (c ∷ first) >>= (λ parsed. ok (if_moved (c ∷ first) parsed))

-- The attribute and the text that is left.
unfoldable pub parse : (Str → Str) → IntType → List Str → ℕ → Str → Result Str (Option (ℕ × Str))
unfolding parse_string
parse skip_over type strings delim text = parse_skipped type strings delim (skip_over text)

-- Into an attribute of another type, to which `move_to` converts.
unfoldable pub parse_into :
    {A : Type 0}
    → (ℕ → A)
    → (Str → Str)
    → IntType
    → List Str
    → ℕ
    → Str
    → Result Str (Option (A × Str))
unfolding parse
parse_into move_to skip_over type strings delim text =
    parse skip_over type strings delim text >>= (λ res. ok (with_attribute move_to res))

moved_iff :
    (c : ℕ) (first : Str) (m : Result Str (ℕ × Str)) (v : ℕ)
    → ((m >>= (λ parsed. ok (if_moved (c ∷ first) parsed))) ≡ ok (some (v, [])))
      ↔ ((m >>= unknown_flag) ≡ ok v)
moved_iff c first (ok (val, [])) v =
    let apart : (0 == length (c ∷ first)) ≡ false = ground arith in rw (apart) (λ e. cc, λ e. cc)
moved_iff c first (ok (val, b ∷ rest)) v =
    elim (Bool-cases (length (b ∷ rest) == length (c ∷ first))) [
      | inl k ↦ rw (k) (λ e. absurd cc, λ e. absurd cc)
      | inr k ↦ rw (k) (λ e. absurd cc, λ e. absurd cc)
    ]
moved_iff c first (err s) v = (λ e. absurd cc, λ e. absurd cc)
moved_iff c first fault v = (λ e. absurd cc, λ e. absurd cc)
moved_iff c first timeout v = (λ e. absurd cc, λ e. absurd cc)

skipped_iff :
    (type : IntType) (strings : List Str) (delim : ℕ) (first : Str) (v : ℕ)
    → length strings ≤ type.width
    → (parse_skipped type strings delim first ≡ ok (some (v, [])))
      ↔ (from_string type strings delim first ≡ ok v)
unfolding from_string parse_string parse_from break_at
skipped_iff type strings delim [] v h =
    let fits : ltb type.width (length strings) ≡ false = ground arith in
    rw (fits) (λ e. cc, λ e. cc)
skipped_iff type strings delim (c ∷ first) v h =
    moved_iff c first (parse_string type strings delim (c ∷ first)) v

-- Where the type has a bit for each name, the parser takes all the text that the skipper leaves, with the
-- attribute `v`, exactly when `from_string` gives `v` for that text.
pub parse-from_string_iff :
    (skip_over : Str → Str) (type : IntType) (strings : List Str) (delim : ℕ) (text : Str) (v : ℕ)
    → length strings ≤ type.width
    → (parse skip_over type strings delim text ≡ ok (some (v, [])))
      ↔ (from_string type strings delim (skip_over text) ≡ ok v)
unfolding parse
parse-from_string_iff skip_over type strings delim text v h =
    skipped_iff type strings delim (skip_over text) v h
