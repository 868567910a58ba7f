-- ===== src/CircularMemory/Align.antt =====
-- The search for an aligned address in utils/circular_memory.hpp.
use native.Mathlib.Nat.{div-add-mod, mod-lt, mul-mod_left, mul_comm}
use fb_utils.Prelude.{
  Bool-cases, inl, inr, refl, true, Option, ok, zero, suc, ◌*◌, ◌==◌, ltb, if◌then◌else◌, ℕ, ◌+◌,
  ◌-◌, ◌/◌, ◌%◌, ◌^◌, ◌≤◌, ◌<◌, ◌≡◌, none, some, arith,
}
use fb_utils.CircularMemory.{
  size_bytes, add_size, sub_size, align_up, aligned_in, is_doubled, is_power_of_two, align,
  pad_n_align,
}

align_up-bounds : (al a : ℕ) → 0 < al → (a ≤ align_up al a) × (align_up al a % al ≡ 0)
align_up-bounds al a h =
    let q = (a + al - 1) / al in
    (
      omega (arith, div-add-mod (a + al - 1) al, mod-lt (a + al - 1) h, mul_comm al q),
      mul-mod_left q al,
    )

is_doubled-pos : (fuel power n : ℕ) → 0 < power → is_doubled fuel power n ≡ true → 0 < n
unfolding is_doubled
is_doubled-pos zero power n h e = ground arith
is_doubled-pos (suc fuel) power n h e = elim (Bool-cases (power == n)) [
  | inl k ↦ ground arith
  | inr k ↦ is_doubled-pos fuel (2 * power) n (omega arith) (rw (k) at e)
]

pub power_of_two-pos : (al : ℕ) → is_power_of_two al ≡ true → 0 < al
power_of_two-pos al e = is_doubled-pos 63 1 al (omega arith) e

-- Where std::align is defined, the lambda gives nothing or the aligned address.
pub padded : ℕ → ℕ → ℕ → ℕ → Option ℕ
unfolding aligned_in
padded al n p space =
    if ltb space (add_size size_bytes n)
    then none
    else aligned_in al n (p + size_bytes) (sub_size space size_bytes)

pub pad_n_align-padded :
    (al n p space : ℕ)
    → is_power_of_two al ≡ true
    → pad_n_align al n p space ≡ ok (padded al n p space)
unfolding pad_n_align align padded
pad_n_align-padded al n p space e = elim (Bool-cases (ltb space (add_size size_bytes n))) [
  | inl k ↦ rw (k) refl
  | inr k ↦ rw (k, e) refl
]

pub padded-bounds :
    (al n p space : ℕ) {res : ℕ}
    → 0 < al
    → n + size_bytes < 2 ^ 64
    → space < 2 ^ 63
    → padded al n p space ≡ some res
    → (p + size_bytes ≤ res) × (res + n ≤ p + space) × (res % al ≡ 0)
unfolding padded aligned_in
padded-bounds al n p space pos nowrap small h = ground (arith, align_up-bounds al (p + 8) pos)

align_up-le : (al a q : ℕ) → 0 < al → a ≤ q → q % al ≡ 0 → align_up al a ≤ q
align_up-le al a q h low even =
    let n = (a + al - 1) / al in
    let k = q / al in
    grind
      (arith, div-add-mod (a + al - 1) al, mod-lt (a + al - 1) h, mul_comm al n, div-add-mod q al)

-- From the position `p` on, no aligned address has room for the block in the space.
abbrev pub NoRoom : ℕ → ℕ → ℕ → ℕ → Type 0
NoRoom n alignment p space = (q : ℕ) → p + size_bytes ≤ q → q % alignment ≡ 0 → p + space < q + n

pub padded-NoRoom :
    (al n p space : ℕ)
    → 0 < al
    → n + size_bytes < 2 ^ 64
    → space < 2 ^ 63
    → padded al n p space ≡ none
    → NoRoom n al p space
unfolding padded aligned_in
padded-NoRoom al n p space pos nowrap small h q low even =
    ground (arith, align_up-le al (p + 8) q pos low even, align_up-bounds al (p + 8) pos)
