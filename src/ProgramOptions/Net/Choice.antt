-- ===== src/ProgramOptions/Net/Choice.antt =====
-- The two attempts at an endpoint with a scheme: at most one of them takes the whole text.
use fb_utils.Prelude.{
  ℕ, ◌≡◌, ◌↔◌, ◌⊎◌, refl, sym, ap, inl, inr, [], ◌++◌, Option, some, none, Str, arith, ◌∙◌,
}
use fb_utils.Spirit.{whole, Spirit, Documented, span}
use fb_utils.Spirit.Span.{Stops, span-append, except-All}
use fb_utils.ProgramOptions.Net.{
  colon, Endpoint, SchemeEndpoint, endpoint, scheme_endpoint, or_endpoint,
}
use fb_utils.ProgramOptions.Net.Named.{IsName, no_colon}
use fb_utils.ProgramOptions.Net.Forms.{
  EndpointForm, SchemeForm, SchemeEndpointForm, PortForm, no_port, with_port, no_endpoint,
  with_endpoint, endpoint_iff, scheme_endpoint_iff,
}

-- A port does not look like what follows a scheme.
PortForm-apart :
    (default_port : ℕ) (rest : Str) (port : ℕ) (ep : Endpoint)
    → SchemeForm default_port rest ep
    → PortForm default_port rest port
    → ⊥
PortForm-apart default_port rest port ep no_endpoint (with_port digits n h) =
    absurd (omega (arith, h.0))
PortForm-apart default_port rest port ep (with_endpoint text e k) (with_port digits n h) =
    let h0 = h.1.0 in absurd cc

PortForm-Stops :
    (default_port : ℕ) (rest : Str) (port : ℕ)
    → PortForm default_port rest port
    → Stops no_colon rest
PortForm-Stops default_port rest port no_port = tt
PortForm-Stops default_port rest port (with_port digits n h) = refl

SchemeForm-Stops :
    (default_port : ℕ) (rest : Str) (ep : Endpoint)
    → SchemeForm default_port rest ep
    → Stops no_colon rest
SchemeForm-Stops default_port rest ep no_endpoint = refl
SchemeForm-Stops default_port rest ep (with_endpoint text e k) = refl

rest_unique :
    (text left right rest end : Str)
    → IsName left
    → IsName right
    → Stops no_colon rest
    → Stops no_colon end
    → text ≡ left ++ rest
    → text ≡ right ++ end
    → rest ≡ end
rest_unique text left right rest end h k s t e f =
    let first : span no_colon text ≡ (left, rest) =
      rw (e) (span-append no_colon left rest (except-All colon left h.1) s) in
    let second : span no_colon text ≡ (right, end) =
      rw (f) (span-append no_colon right end (except-All colon right k.1) t) in
    ap (λ p. p.1) (sym first ∙ second)

forms-apart :
    (default_port : ℕ) (text : Str) (r : SchemeEndpoint) (ep : Endpoint)
    → SchemeEndpointForm default_port text r
    → EndpointForm default_port text ep
    → ⊥
forms-apart default_port text r ep h k =
    let same : h.rest ≡ k.rest =
      rest_unique text r.scheme ep.host h.rest k.rest h.scheme_lem k.host_lem
        (SchemeForm-Stops default_port h.rest r.ep h.rest_lem)
        (PortForm-Stops default_port k.rest ep.port k.port_lem) h.text_lem k.text_lem in
    PortForm-apart default_port h.rest ep.port r.ep h.rest_lem (rw (same) k.port_lem)

-- With a scheme, or an endpoint only.
abbrev pub SchemeOrEndpoint : Str → SchemeEndpoint → Type 0
SchemeOrEndpoint text r = SchemeEndpointForm 0 text r ⊎ ((r.scheme ≡ []) × EndpointForm 0 text r.ep)

Option-cases : {A : Type 0} (o : Option A) → (o ≡ none) ⊎ ((a : A) × (o ≡ some a))
Option-cases none = inl refl
Option-cases (some a) = inr (a, refl)

or_endpoint-SchemeOrEndpoint :
    (x : Spirit)
    → Documented x
    → (text : Str) (r : SchemeEndpoint)
    → or_endpoint (whole (x.parse (endpoint x 0) text)) none ≡ some r
    → SchemeOrEndpoint text r
or_endpoint-SchemeOrEndpoint x d text r h =
    elim (Option-cases (whole (x.parse (endpoint x 0) text))) [
      | inl e ↦ let h0 = rw (e) at h in absurd cc
      | inr found ↦
          let h0 = rw (found.1) at h in
          let same : r ≡ record { scheme = []; ep = found.0 } = cc in
          rw (same) (inr (refl, (endpoint_iff x d 0 text found.0).0 found.1))
    ]

pub or_endpoint_iff :
    (x : Spirit)
    → Documented x
    → (text : Str) (r : SchemeEndpoint)
    → (or_endpoint
          (whole (x.parse (endpoint x 0) text))
          (whole (x.parse (scheme_endpoint x 0) text))
        ≡ some r)
      ↔ SchemeOrEndpoint text r
or_endpoint_iff x d text r = (forward, backward)
  where
    forward :
        or_endpoint
            (whole (x.parse (endpoint x 0) text))
            (whole (x.parse (scheme_endpoint x 0) text))
          ≡ some r
        → SchemeOrEndpoint text r
    forward h = elim (Option-cases (whole (x.parse (scheme_endpoint x 0) text))) [
      | inl e ↦ or_endpoint-SchemeOrEndpoint x d text r (rw (e) at h)
      | inr found ↦
          let h0 = rw (found.1) at h in
          let same : r ≡ found.0 = cc in
          rw (same) (inl ((scheme_endpoint_iff x d 0 text found.0).0 found.1))
    ]

    backward :
        SchemeOrEndpoint text r
        → or_endpoint
            (whole (x.parse (endpoint x 0) text))
            (whole (x.parse (scheme_endpoint x 0) text))
          ≡ some r
    backward (inl h) = rw ((scheme_endpoint_iff x d 0 text r).1 h) refl
    backward (inr (e0, k)) = elim (Option-cases (whole (x.parse (scheme_endpoint x 0) text))) [
      | inl e ↦
          rw (e, (endpoint_iff x d 0 text r.ep).1 k)
            (ap (λ s. some (record { scheme = s; ep = r.ep })) (sym e0))
      | inr found ↦
          absurd
            (forms-apart 0 text found.0 r.ep ((scheme_endpoint_iff x d 0 text found.0).0 found.1) k)
    ]
