-- ===== src/ProgramOptions/ValidatorTests.antt =====
-- Runs of the validators of utils/program_options at concrete inputs, and instances of their
-- theorems.
use fb_utils.Prelude.{Str, ◌≡◌, ◌↔◌, refl, [], ◌∷◌, codes, ok, err, some, none, true}
use fb_utils.Spirit.{span, value_of, longest, elements}
use fb_utils.Spirit.Peg.{peg, peg-Documented}
use fb_utils.ProgramOptions.Validators.{
  checks, checks-DocumentedChecks, validate_with, invalid_option_value,
}
use fb_utils.ProgramOptions.Validators.Accepts.{Accepts}
use fb_utils.ProgramOptions.Net.{
  Endpoint, Credentials, SchemeEndpoint, validate_endpoint, validate_credentials,
  validate_scheme_endpoint, endpoint, scheme_endpoint, credentials, port_part, endpoint_part,
}
use fb_utils.ProgramOptions.Net.Forms.{EndpointForm}
use fb_utils.ProgramOptions.Net.Password.{CredentialsForm}
use fb_utils.ProgramOptions.Net.Choice.{SchemeOrEndpoint}
use fb_utils.ProgramOptions.Net.Validate.{
  validate_endpoint_iff, validate_credentials_iff, validate_scheme_endpoint_iff,
}
use fb_utils.ProgramOptions.Chrono.{
  validate_duration, validate_durations, duration, durations, unit_part, duration_cast,
  milliseconds, hours,
}
use fb_utils.ProgramOptions.Addresses.{validate_url}
use fb_utils.ProgramOptions.Addresses.Urls.{IsUrl, validate_url_iff}

with_port :
    validate_endpoint peg checks none (codes "127.0.0.1:443" ∷ [])
    ≡ ok (some (record { host = codes "127.0.0.1"; port = 443 }))
unfolding validate_endpoint validate_with endpoint port_part span value_of
with_port = refl

missing_port :
    validate_endpoint peg checks none (codes "host:" ∷ [])
    ≡ err (invalid_option_value (codes "invalid endpoint"))
unfolding validate_endpoint validate_with endpoint port_part span value_of
missing_port = refl

large_port :
    validate_endpoint peg checks none (codes "host:65536" ∷ [])
    ≡ err (invalid_option_value (codes "invalid endpoint"))
unfolding validate_endpoint validate_with endpoint port_part span value_of
large_port = refl

with_scheme :
    validate_scheme_endpoint peg checks none (codes "tcp://host:80" ∷ [])
    ≡ ok (some (record { scheme = codes "tcp"; ep = record { host = codes "host"; port = 80 } }))
unfolding validate_scheme_endpoint validate_with scheme_endpoint endpoint_part endpoint port_part
    span value_of
with_scheme = refl

without_scheme :
    validate_scheme_endpoint peg checks none (codes "host:80" ∷ [])
    ≡ ok (some (record { scheme = []; ep = record { host = codes "host"; port = 80 } }))
unfolding validate_scheme_endpoint validate_with scheme_endpoint endpoint_part endpoint port_part
    span value_of
without_scheme = refl

password_with_colon :
    validate_credentials peg checks none (codes "user:a:b" ∷ [])
    ≡ ok (some (record { username = codes "user"; password = codes "a:b" }))
unfolding validate_credentials validate_with credentials span
password_with_colon = refl

ninety_minutes : validate_duration peg checks hours none (codes "90m" ∷ []) ≡ ok (some 1)
unfolding validate_duration validate_with duration unit_part duration_cast span value_of longest
ninety_minutes = refl

two_durations :
    validate_durations peg checks milliseconds none (codes "2s,5" ∷ []) ≡ ok (some (2000 ∷ 5 ∷ []))
unfolding validate_durations validate_with durations duration unit_part duration_cast span value_of
    longest elements
two_durations = refl

validate_endpoint_iff_example :
    (validate_endpoint peg checks none (codes "host:80" ∷ [])
      ≡ ok (some (record { host = codes "host"; port = 80 })))
    ↔ Accepts {A = Endpoint} none
        (codes "host:80" ∷ [])
        (λ text. EndpointForm 0 text (record { host = codes "host"; port = 80 }))
validate_endpoint_iff_example =
    validate_endpoint_iff peg peg-Documented checks checks-DocumentedChecks none
      (codes "host:80" ∷ []) (record { host = codes "host"; port = 80 })

validate_credentials_iff_example :
    (validate_credentials peg checks none (codes "user:secret" ∷ [])
      ≡ ok (some (record { username = codes "user"; password = codes "secret" })))
    ↔ Accepts {A = Credentials} none (codes "user:secret" ∷ []) (λ text.
      CredentialsForm text (record { username = codes "user"; password = codes "secret" }))
validate_credentials_iff_example =
    validate_credentials_iff peg peg-Documented checks checks-DocumentedChecks none
      (codes "user:secret" ∷ []) (record { username = codes "user"; password = codes "secret" })

validate_scheme_endpoint_iff_example :
    (validate_scheme_endpoint peg checks none (codes "host:80" ∷ [])
      ≡ ok (some (record { scheme = []; ep = record { host = codes "host"; port = 80 } })))
    ↔ Accepts {A = SchemeEndpoint} none (codes "host:80" ∷ []) (λ text.
      SchemeOrEndpoint text
        (record { scheme = []; ep = record { host = codes "host"; port = 80 } }))
validate_scheme_endpoint_iff_example =
    validate_scheme_endpoint_iff peg peg-Documented checks checks-DocumentedChecks none
      (codes "host:80" ∷ [])
      (record { scheme = []; ep = record { host = codes "host"; port = 80 } })

validate_url_iff_example :
    (validate_url checks
        (λ text. err (record { need_more = true; message = codes "need more" }))
        (λ host. host)
        none
        (codes "host" ∷ [])
      ≡ ok (some (codes "host")))
    ↔ Accepts {A = Str} none (codes "host" ∷ []) (λ text.
      IsUrl
        (λ text. err (record { need_more = true; message = codes "need more" }))
        (λ host. host)
        text
        (codes "host"))
validate_url_iff_example =
    validate_url_iff checks checks-DocumentedChecks
      (λ text. err (record { need_more = true; message = codes "need more" })) (λ host. host) none
      (codes "host" ∷ []) (codes "host")
