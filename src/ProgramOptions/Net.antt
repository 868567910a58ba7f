-- ===== src/ProgramOptions/Net.antt =====
-- utils/program_options/net.hpp and validators/net.hpp: the grammars of an endpoint, of one with a
-- scheme and of credentials, and the validators. The grammars are terms of Boost.Spirit's
-- interface; the addresses and URLs of Boost.Asio and Boost.URL are parameters.
pub mod Named
pub mod Parts
pub mod Forms
pub mod Password
pub mod Choice
pub mod Validate
use fb_utils.Prelude.{ℕ, List, [], Option, none, some, Str, codes, Result}
use fb_utils.Spirit.{whole, Spirit}
use fb_utils.ProgramOptions.Validators.{
  Validators, ValidateError, invalid_option_value, or_throw, validate_with,
}

pub record Endpoint : Type 0 where
  pub host : Str
  pub port : ℕ

pub record SchemeEndpoint : Type 0 where
  pub scheme : Str
  pub ep : Endpoint

pub record Credentials : Type 0 where
  pub username : Str
  pub password : Str

abbrev pub colon : ℕ
colon = 58

-- `x3::ushort_`
abbrev pub port_max : ℕ
port_max = 65535

abbrev pub to_endpoint : Str × ℕ → Endpoint
to_endpoint (host, port) = record { host = host; port = port }

abbrev pub to_scheme_endpoint : Str × Endpoint → SchemeEndpoint
to_scheme_endpoint (scheme, ep) = record { scheme = scheme; ep = ep }

abbrev pub to_credentials : Str × Str → Credentials
to_credentials (username, password) = record { username = username; password = password }

-- The second attempt, with an empty scheme, counts where the first has failed. Where it takes the
-- whole text the first one has set no host, so that the attribute is as a new one.
abbrev pub or_endpoint : Option Endpoint → Option SchemeEndpoint → Option SchemeEndpoint
or_endpoint second (some res) = some res
or_endpoint none none = none
or_endpoint (some ep) none = some (record { scheme = []; ep = ep })

module _ (x : Spirit) where
  -- What follows the host.
  unfoldable pub port_part : ℕ → x.Parser ℕ
  port_part default_port =
      x.alt (x.then_ (x.lit (codes ":")) (x.uint port_max)) (x.attr default_port)

  unfoldable pub endpoint : ℕ → x.Parser Endpoint
  unfolding port_part
  endpoint default_port = x.rule to_endpoint (x.seq (x.chars_except colon) (port_part default_port))

  -- What follows the scheme.
  unfoldable pub endpoint_part : ℕ → x.Parser Endpoint
  unfolding endpoint
  endpoint_part default_port =
      x.alt (x.then_ (x.lit (codes "://")) (endpoint default_port))
        (x.then_ (x.lit (codes ":")) (x.attr (record { host = []; port = default_port })))

  unfoldable pub scheme_endpoint : ℕ → x.Parser SchemeEndpoint
  unfolding endpoint_part
  scheme_endpoint default_port =
      x.rule to_scheme_endpoint (x.seq (x.chars_except colon) (endpoint_part default_port))

  unfoldable pub credentials : x.Parser Credentials
  credentials =
      x.rule to_credentials (x.seq (x.chars_except colon) (x.then_ (x.lit (codes ":")) x.chars))

  module _ (c : Validators) where
    unfoldable pub validate_endpoint :
        Option Endpoint → List Str → Result ValidateError (Option Endpoint)
    unfolding endpoint
    validate_endpoint = validate_with c (λ value.
        or_throw (invalid_option_value (codes "invalid endpoint"))
          (whole (x.parse (endpoint 0) value)))

    unfoldable pub validate_credentials :
        Option Credentials → List Str → Result ValidateError (Option Credentials)
    unfolding credentials
    validate_credentials = validate_with c (λ value.
        or_throw (invalid_option_value (codes "invalid credentials"))
          (whole (x.parse credentials value)))

    unfoldable pub validate_scheme_endpoint :
        Option SchemeEndpoint → List Str → Result ValidateError (Option SchemeEndpoint)
    unfolding scheme_endpoint endpoint
    validate_scheme_endpoint = validate_with c (λ value.
        or_throw (invalid_option_value (codes "schema-endpoint")) (
          or_endpoint (whole (x.parse (endpoint 0) value))
            (whole (x.parse (scheme_endpoint 0) value))))
