-- ===== src/ProgramOptions/Addresses.antt =====
-- utils/program_options/validators/net.hpp: the validators of addresses and of URLs. What
-- Boost.Asio and Boost.URL parse is a parameter: a value, or an error.
pub mod Urls
use fb_utils.Prelude.{
  Bool, List, ◌++◌, Option, if◌then◌else◌, Str, codes, Result, ok, err, fault, timeout,
}
use fb_utils.ProgramOptions.Validators.{Validators, ValidateError, runtime_error, validate_with}

-- A boost::system::error_code: whether it is `grammar::error::need_more`, and its message.
pub record ErrorCode : Type 0 where
  pub need_more : Bool
  pub message : Str

-- The text of the exception.
abbrev pub cannot_parse : Str → Str → ErrorCode → Str
cannot_parse what value error = what ++ value ++ codes "\" : " ++ error.message

-- `if (!!error) throw`
abbrev pub or_runtime_error : {A : Type 0} → Str → Str → Result ErrorCode A → Result ValidateError A
or_runtime_error what value (ok a) = ok a
or_runtime_error what value (err error) = err (runtime_error (cannot_parse what value error))
or_runtime_error what value fault = fault
or_runtime_error what value timeout = timeout

module _ (c : Validators) {A : Type 0} (make : Str → Result ErrorCode A) where
  -- `asio::ip::make_address`, `make_address_v4` and `make_address_v6` are the parameter `make`.
  unfoldable pub validate_address : Option A → List Str → Result ValidateError (Option A)
  validate_address =
      validate_with c
        (λ value. or_runtime_error (codes "can't parse ip address \"") value (make value))

  unfoldable pub validate_address_v4 : Option A → List Str → Result ValidateError (Option A)
  validate_address_v4 =
      validate_with c
        (λ value. or_runtime_error (codes "can't parse ip v4 address \"") value (make value))

  unfoldable pub validate_address_v6 : Option A → List Str → Result ValidateError (Option A)
  validate_address_v6 =
      validate_with c
        (λ value. or_runtime_error (codes "can't parse ip v6 address \"") value (make value))

-- A text that ends too early for a URL is the host of one: `with_host` is `set_host` of a new URL.
abbrev pub or_host : {U : Type 0} → (Str → U) → Str → Result ErrorCode U → Result ValidateError U
or_host with_host value (err error) =
    if error.need_more
    then ok (with_host value)
    else err (runtime_error (cannot_parse (codes "can't parse url \"") value error))
or_host with_host value (ok url) = ok url
or_host with_host value fault = fault
or_host with_host value timeout = timeout

-- `boost::urls::parse_uri` is a parameter.
unfoldable pub validate_url :
    Validators
    → {U : Type 0} → (Str → Result ErrorCode U)
    → (Str → U)
    → Option U
    → List Str
    → Result ValidateError (Option U)
validate_url c parse_uri with_host =
    validate_with c (λ value. or_host with_host value (parse_uri value))
