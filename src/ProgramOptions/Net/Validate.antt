-- ===== src/ProgramOptions/Net/Validate.antt =====
-- What the validators of utils/program_options/validators/net.hpp accept.
use fb_utils.Prelude.{◌≡◌, ◌↔◌, List, Option, some, Str, ok}
use fb_utils.Spirit.{whole, Spirit, Documented}
use fb_utils.ProgramOptions.Validators.{Validators, DocumentedChecks}
use fb_utils.ProgramOptions.Net.{
  Endpoint, SchemeEndpoint, Credentials, credentials, endpoint, scheme_endpoint, validate_endpoint,
  validate_credentials, validate_scheme_endpoint, or_endpoint,
}
use fb_utils.ProgramOptions.Net.Forms.{EndpointForm, endpoint_iff}
use fb_utils.ProgramOptions.Validators.Accepts.{Accepts, both, or_throw_iff, Accepts_iff}
use fb_utils.ProgramOptions.Net.Password.{CredentialsForm, credentials_iff}
use fb_utils.ProgramOptions.Net.Choice.{SchemeOrEndpoint, or_endpoint_iff}

module _ (x : Spirit) (d : Documented x) (c : Validators) (k : DocumentedChecks c) where
  -- The endpoint validator accepts just a host without a colon, with no port (which is then 0) or with a colon and
  -- a port up to 65535, as the first and only value of the option.
  pub validate_endpoint_iff :
      (v : Option Endpoint) (values : List Str) (ep : Endpoint)
      → (validate_endpoint x c v values ≡ ok (some ep))
        ↔ Accepts v values (λ text. EndpointForm 0 text ep)
  unfolding validate_endpoint
  validate_endpoint_iff v values ep =
      Accepts_iff c k _ (λ text. EndpointForm 0 text ep) v values ep
        (λ text.
          both (or_throw_iff _ (whole (x.parse (endpoint x 0) text)) ep)
            (endpoint_iff x d 0 text ep))

  -- The validator of credentials accepts just a user name without a colon, a colon and a password,
  -- neither empty, as the first and only value of the option.
  pub validate_credentials_iff :
      (v : Option Credentials) (values : List Str) (r : Credentials)
      → (validate_credentials x c v values ≡ ok (some r))
        ↔ Accepts v values (λ text. CredentialsForm text r)
  unfolding validate_credentials
  validate_credentials_iff v values r =
      Accepts_iff c k _ (λ text. CredentialsForm text r) v values r
        (λ text.
          both (or_throw_iff _ (whole (x.parse (credentials x) text)) r)
            (credentials_iff x d text r))

  -- The validator of an endpoint with a scheme accepts, as the first and only value of the option, a scheme
  -- with a colon alone, a scheme with `://` and an endpoint, or an endpoint, the scheme being empty then; and
  -- nothing else.
  pub validate_scheme_endpoint_iff :
      (v : Option SchemeEndpoint) (values : List Str) (r : SchemeEndpoint)
      → (validate_scheme_endpoint x c v values ≡ ok (some r))
        ↔ Accepts v values (λ text. SchemeOrEndpoint text r)
  unfolding validate_scheme_endpoint
  validate_scheme_endpoint_iff v values r =
      Accepts_iff c k _ (λ text. SchemeOrEndpoint text r) v values r
        (λ text.
          both
            (or_throw_iff _
              (or_endpoint (whole (x.parse (endpoint x 0) text))
                (whole (x.parse (scheme_endpoint x 0) text)))
              r)
            (or_endpoint_iff x d text r))
