-- ===== src/ProgramOptions/Net/Password.antt =====
-- Which texts the grammar of credentials in utils/program_options/net.hpp takes as a whole.
use fb_utils.Prelude.{
  ◌<◌, ◌≡◌, ◌↔◌, refl, inl, inr, [], ◌∷◌, ◌++◌, some, Str, ◌==◌, length, codes, arith, Bool-cases,
}
use fb_utils.Spirit.{whole, Spirit, Documented, nonempty}
use fb_utils.ProgramOptions.Net.{Credentials, colon, credentials, to_credentials}
use fb_utils.ProgramOptions.Net.Named.{IsName, parts_iff}

-- A user name without a colon, a colon and a password.
pub record CredentialsForm (text : Str) (r : Credentials) : Type 0 where
  pub text_lem : text ≡ r.username ++ colon ∷ r.password
  pub username_lem : IsName r.username
  pub password_lem : 0 < length r.password

whole-chars :
    (rest password : Str)
    → (whole (nonempty (rest, [])) ≡ some password)
      ↔ ((colon ∷ rest ≡ colon ∷ password) × (0 < length password))
whole-chars [] password = (
  λ e. absurd cc,
  λ h. let h0 = h.0 in let same : [] ≡ password = cc in absurd (omega (arith, rw (← same) at h.1)),
)
whole-chars (c ∷ rest) password = (
  λ e. let same : c ∷ rest ≡ password = cc in (cc, rw (← same) (omega arith)),
  λ h. let h0 = h.0 in cc,
)

-- What `':' >> +x3::char_` behind the user name reads as a whole.
whole-password :
    (x : Spirit)
    → Documented x
    → (rest password : Str)
    → (whole (x.parse (x.then_ (x.lit (codes ":")) x.chars) rest) ≡ some password)
      ↔ ((rest ≡ colon ∷ password) × (0 < length password))
whole-password x d [] password =
    rw (d.parse-then _ x.chars [], d.parse-lit (codes ":") [])
      (λ e. absurd cc, λ h. let h0 = h.0 in absurd cc)
whole-password x d (c ∷ rest) password =
    rw (d.parse-then _ x.chars (c ∷ rest), d.parse-lit (codes ":") (c ∷ rest))
      (elim (Bool-cases (c == colon)) [
        | inl e ↦
            rw (e, d.parse-chars rest)
              (let same : c ≡ colon = ground arith in rw (same) (whole-chars rest password))
        | inr e ↦ rw (e) (
          λ k. absurd cc,
          λ h. let h0 = h.0 in let same : c ≡ colon = cc in absurd (ground arith),
        )
      ])

pub credentials_iff :
    (x : Spirit)
    → Documented x
    → (text : Str) (r : Credentials)
    → (whole (x.parse (credentials x) text) ≡ some r) ↔ CredentialsForm text r
unfolding credentials
credentials_iff x d text r = (forward, backward)
  where
    forward : whole (x.parse (credentials x) text) ≡ some r → CredentialsForm text r
    forward e =
        let (name, password, h, same) =
          (parts_iff x d to_credentials (x.then_ (x.lit (codes ":")) x.chars) text r).0 e in
        let (e1, e2) = (whole-password x d h.rest password).0 h.whole_lem in
        rw (same)
          (record { text_lem = rw (← e1) h.text_lem; username_lem = h.name_lem; password_lem = e2 })

    backward : CredentialsForm text r → whole (x.parse (credentials x) text) ≡ some r
    backward h = (parts_iff x d to_credentials (x.then_ (x.lit (codes ":")) x.chars) text r).1 (
      r.username,
      r.password,
      record {
        rest = colon ∷ r.password;
        text_lem = h.text_lem;
        name_lem = h.username_lem;
        rest_lem = refl;
        whole_lem = (whole-password x d (colon ∷ r.password) r.password).1 (refl, h.password_lem);
      },
      refl,
    )
