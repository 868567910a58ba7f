-- ===== src/Flags/Bits.antt =====
-- The bits that utils/flags/flags.hpp sets, one after the other.
use Prim.Native.Nat.{digits, bit_or, bit_or-bitwise, max}
use native.Mathlib.Nat.{pow-suc}
use fb_utils.Prelude.{ℕ, zero, suc, ◌+◌, ◌/◌, ◌%◌, ◌^◌, ◌≤◌, ◌<◌, ◌≡◌, ◌∙◌, arith}

-- With the digits to go as the definition counts them.
add_digit : (fuel a k : ℕ) → a ≤ fuel → a < 2 ^ k → digits (λ b. b) max fuel a (2 ^ k) ≡ a + 2 ^ k
add_digit zero zero k h low = omega arith
add_digit zero (suc a) k h low = absurd (omega arith)
add_digit (suc fuel) zero k h low = omega arith
add_digit (suc fuel) (suc a) zero h low = absurd (omega arith)
add_digit (suc fuel) (suc a) (suc k) h low =
    let half : 2 ^ suc k / 2 ≡ 2 ^ k = omega (arith, pow-suc 2 k) in
    let even : 2 ^ suc k % 2 ≡ 0 = omega (arith, pow-suc 2 k) in
    rw (half, even)
      (omega (
        arith,
        pow-suc 2 k,
        add_digit fuel (suc a / 2) k (omega arith) (omega (arith, pow-suc 2 k)),
      ))

-- A bit above all others is added.
pub bit_or-two_pow : (a k : ℕ) → a < 2 ^ k → bit_or a (2 ^ k) ≡ a + 2 ^ k
bit_or-two_pow a k low = bit_or-bitwise a (2 ^ k) ∙ add_digit a a k (omega arith) low
