-- ===== src/ProgramOptions/Order.antt =====
-- The order of std::string, as `less` of ProgramOptions.IniOptions computes it, and prefixes.
use fb_utils.Prelude.{◌≡◌, ◌≢◌, refl, ap₂, true, false, [], ◌∷◌, Str, starts_with, arith}
use fb_utils.ProgramOptions.IniOptions.{less}

pub less_trans : (a b c : Str) → less a b ≡ true → less b c ≡ true → less a c ≡ true
unfolding less
less_trans [] [] c h k = cc
less_trans [] (y ∷ b) [] h k = cc
less_trans [] (y ∷ b) (z ∷ c) h k = refl
less_trans (x ∷ a) [] c h k = cc
less_trans (x ∷ a) (y ∷ b) [] h k = cc
less_trans (x ∷ a) (y ∷ b) (z ∷ c) h k = ground (arith, less_trans a b c)

pub less_irrefl : (a : Str) → less a a ≡ false
unfolding less
less_irrefl [] = refl
less_irrefl (x ∷ a) = ground (arith, less_irrefl a)

-- A text in between a prefix and its extension is an extension too.
pub between :
    (p y key : Str)
    → less p y ≡ true
    → less y key ≡ true
    → starts_with key p ≡ true
    → starts_with y p ≡ true
unfolding less
between [] y key h k s = refl
between (x ∷ p) [] key h k s = cc
between (x ∷ p) (c ∷ y) [] h k s = cc
between (x ∷ p) (c ∷ y) (z ∷ key) h k s = ground (arith, between p y key)

-- A prefix comes before its extensions.
pub prefix-less : (p key : Str) → starts_with key p ≡ true → p ≢ key → less p key ≡ true
unfolding less
prefix-less [] [] h n = absurd (n refl)
prefix-less [] (z ∷ key) h n = refl
prefix-less (x ∷ p) [] h n = cc
prefix-less (x ∷ p) (z ∷ key) h n =
    let same : x ≡ z = ground arith in
    let rest : starts_with key p ≡ true = ground arith in
    ground (arith, prefix-less p key rest (λ e. n (ap₂ ◌∷◌ same e)))
