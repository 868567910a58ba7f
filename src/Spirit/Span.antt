-- ===== src/Spirit/Span.antt =====
-- The longest piece of a text whose bytes pass a test.
use fb_utils.Prelude.{
  not, ◌==◌, ◌≢◌, arith, append-nil, ℕ, ◌≡◌, refl, ap, inl, inr, Bool, true, false, [], ◌∷◌, ◌++◌,
  Str, All, Bool-cases,
}
use fb_utils.Spirit.{span}

-- What is left does not begin with a byte that passes.
abbrev pub Stops : (ℕ → Bool) → Str → Type 0
Stops p [] = Unit
Stops p (c ∷ rest) = p c ≡ false

-- How a text splits into such a piece and the rest.
pub record Splits (p : ℕ → Bool) (text front rest : Str) : Type 0 where
  pub text_lem : text ≡ front ++ rest
  pub front_lem : All (λ c. p c ≡ true) front
  pub rest_lem : Stops p rest

abbrev SpanOf : (ℕ → Bool) → Str → Str × Str → Type 0
SpanOf p text (front, rest) = Splits p text front rest

Splits-cons :
    (p : ℕ → Bool) (c : ℕ) (text : Str) (s : Str × Str)
    → p c ≡ true
    → SpanOf p text s
    → SpanOf p (c ∷ text) (c ∷ s.0, s.1)
Splits-cons p c text (front, rest) e h = record {
  text_lem = ap (◌∷◌ c) h.text_lem;
  front_lem = (e, h.front_lem);
  rest_lem = h.rest_lem;
}

pub span-Splits : (p : ℕ → Bool) (text : Str) → Splits p text (span p text).0 (span p text).1
unfolding span
span-Splits p [] = record { text_lem = refl; front_lem = tt; rest_lem = tt }
span-Splits p (c ∷ text) = elim (Bool-cases (p c)) [
  | inl e ↦ rw (e) (Splits-cons p c text (span p text) e (span-Splits p text))
  | inr e ↦ rw (e) (record { text_lem = refl; front_lem = tt; rest_lem = e })
]

-- The split is the only one.
pub span-append :
    (p : ℕ → Bool) (front rest : Str)
    → All (λ c. p c ≡ true) front
    → Stops p rest
    → span p (front ++ rest) ≡ (front, rest)
unfolding span
span-append p [] [] h k = refl
span-append p [] (c ∷ rest) h k = rw (k) refl
span-append p (c ∷ front) rest h k = rw (h.0, span-append p front rest h.1 k) refl

pub span_whole : (p : ℕ → Bool) (text : Str) → All (λ c. p c ≡ true) text → span p text ≡ (text, [])
span_whole p text h = rw (append-nil text) at (span-append p text [] h tt)

-- `char_ - b` passes what is not `b`.
pub All-except : (b : ℕ) (text : Str) → All (λ c. not (c == b) ≡ true) text → All (λ c. c ≢ b) text
All-except b [] h = tt
All-except b (c ∷ text) h =
    let h0 : not (c == b) ≡ true = h.0 in (ground arith, All-except b text h.1)

pub except-All : (b : ℕ) (text : Str) → All (λ c. c ≢ b) text → All (λ c. not (c == b) ≡ true) text
except-All b [] h = tt
except-All b (c ∷ text) h = let h0 : c ≢ b = h.0 in (ground arith, except-All b text h.1)
