-- ===== src/Win/Experimental/Agree.antt =====
-- The range of utils/win/experimental/sysinfo.hpp and `cpus_info` of utils/win/sysinfo.cpp.
use fb_utils.Prelude.{
  ℕ, suc, ◌+◌, ◌-◌, ◌*◌, ◌<◌, ◌≤◌, ◌≡◌, refl, List, [], ◌∷◌, All, ok, ◌==◌, ltb, arith, false, map,
  inl, inr, Bool-cases,
}
use fb_utils.Win.Sysinfo.{
  CpuSetInformation, Answer, success, insufficient_buffer, entries, entry_of, cpu_sets, cpus_info,
  first_answer,
}
use fb_utils.Win.Walk.{total, cpus_info_lem}
use fb_utils.Win.Experimental.{walk, chosen, cpu_set_info, cpu_set}

-- A system with these records: it gives them to a buffer that is large enough, and asks for their
-- bytes otherwise.
pub record Has (infos : List CpuSetInformation) (query : ℕ → Answer CpuSetInformation)
    : Type 0 where
  pub nonempty_lem : All (λ info. 0 < info.size) infos
  pub enough :
      (bytes : ℕ)
      → total CpuSetInformation.size infos ≤ bytes
      → query bytes ≡ success infos (total CpuSetInformation.size infos)
  pub too_small :
      (bytes : ℕ)
      → bytes < total CpuSetInformation.size infos
      → query bytes ≡ insufficient_buffer (total CpuSetInformation.size infos)

not_less : (t k : ℕ) → ltb (suc (k + t)) (suc k) ≡ false
not_less t k = ground arith

walk_record :
    (info : CpuSetInformation) (infos : List CpuSetInformation) (t k : ℕ)
    → info.size ≡ suc k
    → walk t infos ≡ ok infos
    → walk (suc (k + t)) (info ∷ infos) ≡ ok (info ∷ infos)
unfolding walk
walk_record info infos t k e h =
    let left : suc (k + t) - info.size ≡ t = omega arith in
    let some_bytes : (suc k == 0) ≡ false = ground arith in
    let inside : ltb (suc (k + t)) (suc k) ≡ false = not_less t k in
    rw (walk, left, h, e, some_bytes, inside)

walk-total :
    (infos : List CpuSetInformation)
    → All (λ info. 0 < info.size) infos
    → walk (total CpuSetInformation.size infos) infos ≡ ok infos
unfolding walk
walk-total [] h = refl
walk-total (info ∷ infos) h =
    let k = info.size - 1 in
    let t = total CpuSetInformation.size infos in
    let one : info.size ≡ suc k = omega (arith, h.0) in
    let sum : info.size + t ≡ suc (k + t) = omega (arith, h.0) in
    rw sum (walk_record info infos t k one (walk-total infos h.1))

entries-chosen : (infos : List CpuSetInformation) → entries infos ≡ map entry_of (chosen infos)
unfolding entries chosen
entries-chosen [] = refl
entries-chosen (info ∷ infos) = elim (Bool-cases info.is_cpu_set) [
  | inl e ↦ rw (e, entries-chosen infos) refl
  | inr e ↦ rw (e) (entries-chosen infos)
]

-- Either first buffer ends with all the records.
first_answer_lem :
    (bytes : ℕ) (query : ℕ → Answer CpuSetInformation) (infos : List CpuSetInformation)
    → Has infos query
    → first_answer query (query bytes) ≡ ok (infos, total CpuSetInformation.size infos)
first_answer_lem bytes query infos h =
    let t = total CpuSetInformation.size infos in
    elim (Bool-cases (ltb bytes t)) [
      | inl e ↦ rw (h.too_small bytes (ground arith), h.enough t (omega arith)) refl
      | inr e ↦ rw (h.enough bytes (ground arith)) refl
    ]

-- On a system with records that are not empty, which it gives to a buffer that is large enough and
-- for whose bytes it asks otherwise, the range is the processor sets among the records, and
-- cpus_info gives the entries for the same ones, in the same order.
pub cpu_set-Agrees :
    (cpu_bytes : ℕ) (query : ℕ → Answer CpuSetInformation) (infos : List CpuSetInformation)
    → Has infos query
    → (cpu_set cpu_bytes query ≡ ok (chosen infos))
      × (cpus_info cpu_bytes query ≡ ok (map entry_of (chosen infos)))
unfolding cpu_set cpu_set_info cpu_sets
cpu_set-Agrees cpu_bytes query infos h = (
  rw (first_answer_lem (32 * cpu_bytes) query infos h, walk-total infos h.nonempty_lem) refl,
  rw (← entries-chosen infos) (
      cpus_info_lem cpu_bytes query infos h.nonempty_lem
        (first_answer_lem (16 * cpu_bytes) query infos h)),
)
