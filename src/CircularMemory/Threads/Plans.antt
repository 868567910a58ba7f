-- ===== src/CircularMemory/Threads/Plans.antt =====
-- What `allocate` of utils/circular_memory.hpp finds.
use fb_utils.Prelude.{
  ◌⊎◌, true, ltb, Bool-cases, ok, err, fault, timeout, ℕ, ◌+◌, ◌-◌, ◌^◌, ◌≤◌, ◌<◌, ◌≡◌, inl, inr,
  refl, List, Option, none, some, arith,
}
use fb_utils.CircularMemory.Blocks.{Block, IsValid}
use fb_utils.CircularMemory.Note.{Room, Tiles-le}
use fb_utils.CircularMemory.Align.{padded, padded-bounds, pad_n_align-padded, power_of_two-pos}
use fb_utils.CircularMemory.Allocate.{split_space-Parts}
use fb_utils.CircularMemory.Threads.{Plan, plan, plan_at, plan_tail}
use fb_utils.CircularMemory.{
  CircularMemory, Checked, size_bytes, add_size, split_space, is_power_of_two, align, pad_n_align,
}

-- A plan for `n` bytes has room in the free bytes.
pub record Fits (m : CircularMemory) (n : ℕ) (p : Plan) : Type 0 where
  pub header : ℕ
  pub at_res : p.res ≡ m.begin + header + size_bytes
  pub room : Room m header p.total n

abbrev pub Planned : CircularMemory → ℕ → Option Plan → Type 0
Planned m n none = Unit
Planned m n (some p) = Fits m n p × (p.total ≤ m.free)

-- Where the call is not defined, nothing is said.
abbrev IfPlanned : CircularMemory → ℕ → Checked (Option Plan) → Type 0
IfPlanned m n (ok o) = Planned m n o
IfPlanned m n (err e) = Unit
IfPlanned m n fault = Unit
IfPlanned m n timeout = Unit

abbrev Defined : ℕ → Type 0
Defined alignment = is_power_of_two alignment ≡ true

-- What the lambda gives where there is no room, or where std::align is not defined.
pad_n_align-cases :
    (al n p space : ℕ)
    → (Defined al × (pad_n_align al n p space ≡ ok (padded al n p space)))
      ⊎ ((pad_n_align al n p space ≡ ok none) ⊎ (pad_n_align al n p space ≡ fault))
unfolding pad_n_align align
pad_n_align-cases al n p space = elim (Bool-cases (is_power_of_two al)) [
  | inl k ↦ inl (k, pad_n_align-padded al n p space k)
  | inr k ↦ inr (elim (Bool-cases (ltb space (add_size size_bytes n))) [
    | inl l ↦ inl (rw (l) refl)
    | inr l ↦ inr (rw (l, k) refl)
  ])
]

module _ (m : CircularMemory) (bs : List Block) (v : IsValid m bs) (n alignment : ℕ)
    (nowrap : n + size_bytes < 2 ^ 64) where
  plan_front-Planned :
      (o : Option ℕ)
      → Defined alignment
      → padded alignment n m.begin (split_space m).1 ≡ o
      → Planned m n (plan_at m.begin (add_size n (split_space m).0) o)
  unfolding plan_at
  plan_front-Planned none power e = tt
  plan_front-Planned (some res) power e =
      let first = (split_space m).0 in
      let second = (split_space m).1 in
      let s = split_space-Parts m bs v in
      let le = Tiles-le m 0 bs v.tiles in
      let (low, high, even) =
        padded-bounds alignment n m.begin second (power_of_two-pos alignment power) nowrap
          (omega (arith, s.second_in, v.small, v.tail_in)) e in
      let sum : add_size (add_size n first) (res - m.begin) ≡ n + first + (res - m.begin) =
        omega (arith, s.whole, v.small) in
      rw sum (
        record {
          header = res - m.begin - size_bytes;
          at_res = omega arith;
          room = record {
            side = inr (omega (arith, s.second_in));
            inside = omega (arith, s.second_in, v.tail_in);
            before = ground (arith, s.whole, s.second_in, s.second_after);
          };
        },
        omega (arith, s.whole),
      )

  -- The second part, where the first has no room.
  plan_tail-none : IfPlanned m n (plan_tail m n alignment none)
  unfolding plan_tail plan_at
  plan_tail-none = elim (pad_n_align-cases alignment n m.begin (split_space m).1) [
    | inl (power, e) ↦ rw (plan_tail, e) (plan_front-Planned _ power refl)
    | inr (inl e) ↦ rw (plan_tail, e) tt
    | inr (inr e) ↦ rw (plan_tail, e) tt
  ]

  plan_tail-Planned :
      (o : Option ℕ)
      → Defined alignment
      → padded alignment n (m.begin + m.tail) (split_space m).0 ≡ o
      → IfPlanned m n (plan_tail m n alignment o)
  unfolding plan_tail plan_at
  plan_tail-Planned none power e = plan_tail-none
  plan_tail-Planned (some res) power e =
      let first = (split_space m).0 in
      let s = split_space-Parts m bs v in
      let le = Tiles-le m 0 bs v.tiles in
      let (low, high, even) =
        padded-bounds alignment n (m.begin + m.tail) first (power_of_two-pos alignment power) nowrap
          (omega (arith, s.first_in, v.small)) e in
      let sum : add_size n (res - (m.begin + m.tail)) ≡ n + (res - (m.begin + m.tail)) =
        omega (arith, s.whole, v.small) in
      rw sum (
        record {
          header = res - m.begin - size_bytes;
          at_res = omega arith;
          room = record {
            side = inl (omega arith);
            inside = omega (arith, s.first_in);
            before = ground arith;
          };
        },
        omega (arith, s.whole),
      )

  plan-IfPlanned : IfPlanned m n (plan m n alignment)
  unfolding plan
  plan-IfPlanned = elim (pad_n_align-cases alignment n (m.begin + m.tail) (split_space m).0) [
    | inl (power, e) ↦ rw (plan, e) (plan_tail-Planned _ power refl)
    | inr (inl e) ↦ rw (plan, e) plan_tail-none
    | inr (inr e) ↦ rw (plan, e) tt
  ]

  pub plan-Planned : (o : Option Plan) → plan m n alignment ≡ ok o → Planned m n o
  plan-Planned o e = rw (e) at plan-IfPlanned
