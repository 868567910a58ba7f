-- ===== src/ProgramOptions/Addresses/Urls.antt =====
-- What the validators of addresses and URLs in utils/program_options/validators/net.hpp accept.
use fb_utils.Prelude.{
  ◌≡◌, ◌↔◌, ◌⊎◌, refl, inl, inr, true, List, Option, some, Str, Result, ok, err, fault, timeout,
  Bool-cases,
}
use fb_utils.ProgramOptions.Validators.{Validators, DocumentedChecks}
use fb_utils.ProgramOptions.Validators.Accepts.{Accepts, Accepts_iff}
use fb_utils.ProgramOptions.Addresses.{ErrorCode, or_host, validate_url}

-- A text that parses, or one that ends too early and is a host.
abbrev pub IsUrl : {U : Type 0} → (Str → Result ErrorCode U) → (Str → U) → Str → U → Type 0
IsUrl parse_uri with_host text url =
    (parse_uri text ≡ ok url)
    ⊎ ((error : ErrorCode) × (parse_uri text ≡ err error)
        × (error.need_more ≡ true)
        × (url ≡ with_host text))

or_host-IsUrl :
    {U : Type 0} (with_host : Str → U) (text : Str) (r : Result ErrorCode U) (url : U)
    → or_host with_host text r ≡ ok url
    → IsUrl (λ _. r) with_host text url
or_host-IsUrl with_host text (ok u) url e = inl cc
or_host-IsUrl with_host text (err error) url e = elim (Bool-cases error.need_more) [
  | inl k ↦ let e0 = rw (k) at e in inr (error, refl, k, cc)
  | inr k ↦ let e0 = rw (k) at e in absurd cc
]
or_host-IsUrl with_host text fault url e = absurd cc
or_host-IsUrl with_host text timeout url e = absurd cc

IsUrl-or_host :
    {U : Type 0} (with_host : Str → U) (text : Str) (r : Result ErrorCode U) (url : U)
    → IsUrl (λ _. r) with_host text url
    → or_host with_host text r ≡ ok url
IsUrl-or_host with_host text r url (inl e) = rw (e) refl
IsUrl-or_host with_host text r url (inr (error, e, k, same)) = rw (e, k, same) refl

-- The validator of a URL accepts, as the first and only value of the option, just a text that
-- Boost.URL parses, with its URL, or one for which it needs more, with the URL of that host.
pub validate_url_iff :
    (c : Validators)
    → DocumentedChecks c
    → {U : Type 0} (parse_uri : Str → Result ErrorCode U) (with_host : Str → U) (v : Option U)
      (values : List Str) (url : U)
    → (validate_url c parse_uri with_host v values ≡ ok (some url))
      ↔ Accepts v values (λ text. IsUrl parse_uri with_host text url)
unfolding validate_url
validate_url_iff c k parse_uri with_host v values url =
    Accepts_iff c k _ (λ text. IsUrl parse_uri with_host text url) v values url
      (λ text. (
        or_host-IsUrl with_host text (parse_uri text) url,
        IsUrl-or_host with_host text (parse_uri text) url,
      ))
