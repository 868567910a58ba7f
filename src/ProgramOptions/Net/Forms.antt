-- ===== src/ProgramOptions/Net/Forms.antt =====
-- Which texts the grammars of utils/program_options/net.hpp take as a whole.
use fb_utils.Prelude.{
  ℕ, ◌≡◌, ◌↔◌, refl, inl, inr, [], ◌∷◌, ◌++◌, Option, some, Str, ◌==◌, drop, starts_with, codes,
  arith, Bool-cases,
}
use fb_utils.Spirit.{whole, Spirit, Documented}
use fb_utils.Spirit.Longest.{starts_with-append}
use fb_utils.Spirit.Numbers.{IsNumber, whole-in_limit_iff}
use fb_utils.Spirit.Span.{Stops}
use fb_utils.ProgramOptions.Net.{
  Endpoint, SchemeEndpoint, colon, port_max, port_part, endpoint_part, endpoint, scheme_endpoint,
  to_endpoint, to_scheme_endpoint,
}
use fb_utils.ProgramOptions.Net.Named.{IsName, no_colon, parts_iff}
use fb_utils.ProgramOptions.Net.Parts.{
  port_whole, port_part_lem, no_host, behind_colon, behind_scheme, endpoint_part_lem,
}

-- Nothing behind the host, or a colon and a number.
pub data PortForm (default_port : ℕ) : Str → ℕ → Type 0 where
  no_port : PortForm default_port [] default_port
  with_port :
      (digits : Str) (port : ℕ)
      → IsNumber port_max digits port
      → PortForm default_port (colon ∷ digits) port

pub record EndpointForm (default_port : ℕ) (text : Str) (ep : Endpoint) : Type 0 where
  pub rest : Str
  pub text_lem : text ≡ ep.host ++ rest
  pub host_lem : IsName ep.host
  pub port_lem : PortForm default_port rest ep.port

-- A colon alone, or `://` and an endpoint.
pub data SchemeForm (default_port : ℕ) : Str → Endpoint → Type 0 where
  no_endpoint : SchemeForm default_port (codes ":") (no_host default_port)
  with_endpoint :
      (text : Str) (ep : Endpoint)
      → EndpointForm default_port text ep
      → SchemeForm default_port (codes "://" ++ text) ep

pub record SchemeEndpointForm (default_port : ℕ) (text : Str) (r : SchemeEndpoint) : Type 0 where
  pub rest : Str
  pub text_lem : text ≡ r.scheme ++ rest
  pub scheme_lem : IsName r.scheme
  pub rest_lem : SchemeForm default_port rest r.ep

port_whole-PortForm :
    (default_port : ℕ) (rest : Str) (port : ℕ)
    → port_whole default_port rest ≡ some port
    → PortForm default_port rest port
unfolding port_whole
port_whole-PortForm default_port [] port e =
    let same : port ≡ default_port = cc in rw (same) no_port
port_whole-PortForm default_port (c ∷ rest) port e = elim (Bool-cases (c == colon)) [
  | inl k ↦
      let same : c ≡ colon = ground arith in
      let e0 = rw (k) at e in
      rw (same) (with_port rest port ((whole-in_limit_iff port_max rest port).0 e0))
  | inr k ↦ let e0 = rw (k) at e in absurd cc
]

PortForm-port_whole :
    (default_port : ℕ) (rest : Str) (port : ℕ)
    → PortForm default_port rest port
    → (port_whole default_port rest ≡ some port) × Stops no_colon rest
unfolding port_whole
PortForm-port_whole default_port [] port no_port = (refl, tt)
PortForm-port_whole default_port (c ∷ rest) port (with_port digits n h) =
    ((whole-in_limit_iff port_max rest n).1 h, refl)

behind_colon-SchemeForm :
    (default_port : ℕ) (read : Str → Option Endpoint) (rest : Str) (ep : Endpoint)
    → ((text : Str) → read text ≡ some ep → EndpointForm default_port text ep)
    → behind_colon default_port read rest ≡ some ep
    → SchemeForm default_port (colon ∷ rest) ep
behind_colon-SchemeForm default_port read [] ep h e =
    let same : ep ≡ no_host default_port = cc in rw (same) no_endpoint
behind_colon-SchemeForm default_port read (b ∷ rest) ep h e =
    elim (Bool-cases (starts_with (b ∷ rest) (codes "//"))) [
      | inl k ↦
          rw (starts_with-append (b ∷ rest) (codes "//") k)
            (with_endpoint (drop 2 (b ∷ rest)) ep (h (drop 2 (b ∷ rest)) (rw (k) at e)))
      | inr k ↦ let e0 = rw (k) at e in absurd cc
    ]

behind_scheme-SchemeForm :
    (default_port : ℕ) (read : Str → Option Endpoint) (rest : Str) (ep : Endpoint)
    → ((text : Str) → read text ≡ some ep → EndpointForm default_port text ep)
    → behind_scheme default_port read rest ≡ some ep
    → SchemeForm default_port rest ep
behind_scheme-SchemeForm default_port read [] ep h e = absurd cc
behind_scheme-SchemeForm default_port read (c ∷ rest) ep h e = elim (Bool-cases (c == colon)) [
  | inl k ↦
      let same : c ≡ colon = ground arith in
      rw (same) (behind_colon-SchemeForm default_port read rest ep h (rw (k) at e))
  | inr k ↦ let e0 = rw (k) at e in absurd cc
]

SchemeForm-behind_scheme :
    (default_port : ℕ) (read : Str → Option Endpoint) (rest : Str) (ep : Endpoint)
    → ((text : Str) → EndpointForm default_port text ep → read text ≡ some ep)
    → SchemeForm default_port rest ep
    → (behind_scheme default_port read rest ≡ some ep) × Stops no_colon rest
SchemeForm-behind_scheme default_port read rest ep h no_endpoint = (refl, refl)
SchemeForm-behind_scheme default_port read rest ep h (with_endpoint text e k) = (h text k, refl)

module _ (x : Spirit) (d : Documented x) where
  pub endpoint_iff :
      (default_port : ℕ) (text : Str) (ep : Endpoint)
      → (whole (x.parse (endpoint x default_port) text) ≡ some ep)
        ↔ EndpointForm default_port text ep
  unfolding endpoint
  endpoint_iff default_port text ep = (forward, backward)
    where
      forward :
          whole (x.parse (endpoint x default_port) text) ≡ some ep
          → EndpointForm default_port text ep
      forward e =
          let (name, port, h, same) =
            (parts_iff x d to_endpoint (port_part x default_port) text ep).0 e in
          rw (same) (record {
            rest = h.rest;
            text_lem = h.text_lem;
            host_lem = h.name_lem;
            port_lem =
                port_whole-PortForm default_port h.rest port
                  (rw (port_part_lem x d default_port h.rest) at h.whole_lem);
          })

      backward :
          EndpointForm default_port text ep
          → whole (x.parse (endpoint x default_port) text) ≡ some ep
      backward h =
          let (e, stops) = PortForm-port_whole default_port h.rest ep.port h.port_lem in
          (parts_iff x d to_endpoint (port_part x default_port) text ep).1 (
            ep.host,
            ep.port,
            record {
              rest = h.rest;
              text_lem = h.text_lem;
              name_lem = h.host_lem;
              rest_lem = stops;
              whole_lem = rw (port_part_lem x d default_port h.rest) e;
            },
            refl,
          )

  pub scheme_endpoint_iff :
      (default_port : ℕ) (text : Str) (r : SchemeEndpoint)
      → (whole (x.parse (scheme_endpoint x default_port) text) ≡ some r)
        ↔ SchemeEndpointForm default_port text r
  unfolding scheme_endpoint
  scheme_endpoint_iff default_port text r = (forward, backward)
    where
      forward :
          whole (x.parse (scheme_endpoint x default_port) text) ≡ some r
          → SchemeEndpointForm default_port text r
      forward e =
          let (name, ep, h, same) =
            (parts_iff x d to_scheme_endpoint (endpoint_part x default_port) text r).0 e in
          rw (same) (record {
            rest = h.rest;
            text_lem = h.text_lem;
            scheme_lem = h.name_lem;
            rest_lem =
                behind_scheme-SchemeForm default_port _ h.rest ep
                  (λ t. (endpoint_iff default_port t ep).0)
                  (rw (endpoint_part_lem x d default_port h.rest) at h.whole_lem);
          })

      backward :
          SchemeEndpointForm default_port text r
          → whole (x.parse (scheme_endpoint x default_port) text) ≡ some r
      backward h =
          let (e, stops) =
            SchemeForm-behind_scheme default_port (λ t. whole (x.parse (endpoint x default_port) t))
              h.rest r.ep (λ t. (endpoint_iff default_port t r.ep).1) h.rest_lem in
          (parts_iff x d to_scheme_endpoint (endpoint_part x default_port) text r).1 (
            r.scheme,
            r.ep,
            record {
              rest = h.rest;
              text_lem = h.text_lem;
              name_lem = h.scheme_lem;
              rest_lem = stops;
              whole_lem = rw (endpoint_part_lem x d default_port h.rest) e;
            },
            refl,
          )
