-- ===== src/Prelude/Outcome.antt =====
-- What a call of the program comes to. `err` is an exception that the program throws, `fault` a
-- failed assertion or an access that the language leaves undefined, `timeout` a model's fuel
-- that ran out.
use mathlib.Core.Path.{◌≡◌, refl}
use mathlib.Core.Bool.{Bool, true, false}
use fb_utils.Prelude.Tests.{if◌then◌else◌}
use mathlib.Core.Logic.{◌⊎◌, inl, inr}

pub data Result {ℓ κ} (E : Type ℓ) (A : Type κ) : Type (ℓ ⊔ κ) where
  ok : A → Result E A
  err : E → Result E A
  fault : Result E A
  timeout : Result E A

-- No value, at every level.
pub data Never {ℓ} : Type ℓ where

module _ {ℓ} {E : Type ℓ} where
  infixl 5 ◌>>=◌
  abbrev pub ◌>>=◌ {κ μ} : {A : Type κ} {B : Type μ} → Result E A → (A → Result E B) → Result E B
  ok a >>= f = f a
  err e >>= f = err e
  fault >>= f = fault
  timeout >>= f = timeout

  -- The call comes to a value or to an exception.
  abbrev pub Settles {κ} : {A : Type κ} → Result E A → Type 0
  Settles (ok a) = Unit
  Settles (err e) = Unit
  Settles fault = ⊥
  Settles timeout = ⊥

  pub Settles-cases {κ} :
      {A : Type κ} (m : Result E A) → Settles m → ((a : A) × (m ≡ ok a)) ⊎ ((e : E) × (m ≡ err e))
  Settles-cases (ok a) h = inl (a, refl)
  Settles-cases (err e) h = inr (e, refl)
  Settles-cases fault h = absurd h
  Settles-cases timeout h = absurd h

  pub Settles->>= {κ μ} :
      {A : Type κ} {B : Type μ} (m : Result E A) (f : A → Result E B)
      → Settles m
      → ((a : A) → m ≡ ok a → Settles (f a))
      → Settles (m >>= f)
  Settles->>= (ok a) f h k = k a refl
  Settles->>= (err e) f h k = tt
  Settles->>= fault f h k = h
  Settles->>= timeout f h k = h

  -- The call comes to a value with the property, or to an exception.
  abbrev pub Ensures {κ μ} : {A : Type κ} → (A → Type μ) → Result E A → Type μ
  Ensures P (ok a) = P a
  Ensures P (err e) = Unit
  Ensures P fault = Never
  Ensures P timeout = Never

  pub Ensures->>= {κ μ ν π} :
      {A : Type κ} {B : Type μ} (P : A → Type ν) (Q : B → Type π) (m : Result E A)
      (f : A → Result E B)
      → Ensures P m
      → ((a : A) → P a → Ensures Q (f a))
      → Ensures Q (m >>= f)
  Ensures->>= P Q (ok a) f h k = k a h
  Ensures->>= P Q (err e) f h k = tt
  Ensures->>= P Q fault f h k = elim h [ ]
  Ensures->>= P Q timeout f h k = elim h [ ]

  -- After a part of which only its end is known.
  pub Settles-Ensures {κ μ ν} :
      {A : Type κ} {B : Type μ} (Q : B → Type ν) (m : Result E A) (f : A → Result E B)
      → Settles m
      → ((a : A) → m ≡ ok a → Ensures Q (f a))
      → Ensures Q (m >>= f)
  Settles-Ensures Q (ok a) f h k = k a refl
  Settles-Ensures Q (err e) f h k = tt
  Settles-Ensures Q fault f h k = absurd h
  Settles-Ensures Q timeout f h k = absurd h

  pub Ensures-if {κ μ} :
      {A : Type κ} (P : A → Type μ) (b : Bool) (m n : Result E A)
      → (b ≡ true → Ensures P m)
      → (b ≡ false → Ensures P n)
      → Ensures P (if b then m else n)
  Ensures-if P true m n h k = h refl
  Ensures-if P false m n h k = k refl

  pub Ensures-Settles {κ μ} :
      {A : Type κ} (P : A → Type μ) (m : Result E A) → Ensures P m → Settles m
  Ensures-Settles P (ok a) h = tt
  Ensures-Settles P (err e) h = tt
  Ensures-Settles P fault h = elim h [ ]
  Ensures-Settles P timeout h = elim h [ ]
