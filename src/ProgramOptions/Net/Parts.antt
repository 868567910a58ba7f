-- ===== src/ProgramOptions/Net/Parts.antt =====
-- What the parts of the grammars of utils/program_options/net.hpp read as a whole.
use fb_utils.Prelude.{
  ℕ, ◌≡◌, refl, inl, inr, [], ◌∷◌, Option, some, none, is_nil, Str, ◌==◌, drop, starts_with, codes,
  if◌then◌else◌, Bool-cases,
}
use fb_utils.Spirit.{
  whole, Spirit, Documented, span, nonempty, is_digit, in_limit, or_else, and_then,
}
use fb_utils.ProgramOptions.Net.{Endpoint, colon, port_max, port_part, endpoint_part, endpoint}

pub whole-or_else :
    {A : Type 0} (m second : Option (A × Str))
    → whole second ≡ none
    → whole (or_else m second) ≡ whole m
whole-or_else none second e = e
whole-or_else (some a) second e = refl

-- What the part behind the host reads as a whole.
unfoldable pub port_whole : ℕ → Str → Option ℕ
port_whole default_port [] = some default_port
port_whole default_port (c ∷ rest) =
    if c == colon then whole (in_limit port_max (nonempty (span is_digit rest))) else none

abbrev pub no_host : ℕ → Endpoint
no_host default_port = record { host = []; port = default_port }

-- What the part behind the scheme reads as a whole, with the reader of an endpoint.
abbrev pub behind_colon : ℕ → (Str → Option Endpoint) → Str → Option Endpoint
behind_colon default_port read rest =
    if starts_with rest (codes "//")
    then read (drop 2 rest)
    else if is_nil rest
    then some (no_host default_port)
    else none

abbrev pub behind_scheme : ℕ → (Str → Option Endpoint) → Str → Option Endpoint
behind_scheme default_port read [] = none
behind_scheme default_port read (c ∷ rest) =
    if c == colon then behind_colon default_port read rest else none

module _ (x : Spirit) (d : Documented x) where
  pub port_part_lem :
      (default_port : ℕ) (rest : Str)
      → whole (x.parse (port_part x default_port) rest) ≡ port_whole default_port rest
  unfolding port_part port_whole
  port_part_lem default_port [] =
      rw
        (
          d.parse-alt _ _ [],
          d.parse-then _ (x.uint port_max) [],
          d.parse-lit (codes ":") [],
          d.parse-attr default_port [],
        )
        refl
  port_part_lem default_port (c ∷ rest) =
      rw
        (
          d.parse-alt _ _ (c ∷ rest),
          d.parse-then _ (x.uint port_max) (c ∷ rest),
          d.parse-lit (codes ":") (c ∷ rest),
          d.parse-attr default_port (c ∷ rest),
        )
        (elim (Bool-cases (c == colon)) [
          | inl e ↦ rw (e, d.parse-uint port_max rest) (whole-or_else _ _ refl)
          | inr e ↦ rw (e) refl
        ])

  endpoint_part-colon :
      (default_port : ℕ) (rest : Str)
      → whole (
          or_else
            (and_then {0, 0}
              (if starts_with rest (codes "//") then some (tt, drop 2 rest) else none)
              (λ _ t. x.parse (endpoint x default_port) t))
            (some (no_host default_port, rest)))
        ≡ behind_colon default_port (λ t. whole (x.parse (endpoint x default_port) t)) rest
  endpoint_part-colon default_port [] = refl
  endpoint_part-colon default_port (c ∷ rest) =
      elim (Bool-cases (starts_with (c ∷ rest) (codes "//"))) [
        | inl e ↦ rw (e) (whole-or_else _ _ refl)
        | inr e ↦ rw (e) refl
      ]

  pub endpoint_part_lem :
      (default_port : ℕ) (rest : Str)
      → whole (x.parse (endpoint_part x default_port) rest)
        ≡ behind_scheme default_port (λ t. whole (x.parse (endpoint x default_port) t)) rest
  unfolding endpoint_part
  endpoint_part_lem default_port [] =
      rw
        (
          d.parse-alt _ _ [],
          d.parse-then _ (endpoint x default_port) [],
          d.parse-then _ (x.attr (no_host default_port)) [],
          d.parse-lit (codes "://") [],
          d.parse-lit (codes ":") [],
        )
        refl
  endpoint_part_lem default_port (c ∷ rest) =
      rw
        (
          d.parse-alt _ _ (c ∷ rest),
          d.parse-then _ (endpoint x default_port) (c ∷ rest),
          d.parse-then _ (x.attr (no_host default_port)) (c ∷ rest),
          d.parse-lit (codes "://") (c ∷ rest),
          d.parse-lit (codes ":") (c ∷ rest),
        )
        (elim (Bool-cases (c == colon)) [
          | inl e ↦
              rw (e, d.parse-attr (no_host default_port) rest)
                (endpoint_part-colon default_port rest)
          | inr e ↦ rw (e) refl
        ])
