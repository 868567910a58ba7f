-- ===== src/Win/Walk.antt =====
-- The walk over the records of a buffer, and `cpus_info`, of utils/win/sysinfo.cpp.
use fb_utils.Prelude.{ℕ, suc, ◌+◌, ◌-◌, ◌<◌, ◌≡◌, refl, List, [], ◌∷◌, All, ok, ◌==◌, arith, false}
use fb_utils.Win.Sysinfo.{visit, CpuSetInformation, Answer, entries, cpu_sets, cpus_info}

-- The bytes of all records.
abbrev pub total {ℓ} : {A : Type ℓ} → (A → ℕ) → List A → ℕ
total size [] = 0
total size (info ∷ infos) = size info + total size infos

visit_record {ℓ} :
    {A : Type ℓ} (size : A → ℕ) (info : A) (infos : List A) (t k : ℕ)
    → size info ≡ suc k
    → visit size t infos ≡ ok infos
    → visit size (suc (k + t)) (info ∷ infos) ≡ ok (info ∷ infos)
unfolding visit
visit_record size info infos t k e h =
    let left : suc (k + t) - size info ≡ t = omega arith in
    let some_bytes : (suc k == 0) ≡ false = ground arith in rw (visit, left, h, e, some_bytes)

visit-total {ℓ} :
    {A : Type ℓ} (size : A → ℕ) (infos : List A)
    → All (λ info. 0 < size info) infos
    → visit size (total size infos) infos ≡ ok infos
unfolding visit
visit-total size [] h = refl
visit-total size (info ∷ infos) h =
    let k = size info - 1 in
    let t = total size infos in
    let one : size info ≡ suc k = omega (arith, h.0) in
    let sum : size info + t ≡ suc (k + t) = omega (arith, h.0) in
    rw sum (visit_record size info infos t k one (visit-total size infos h.1))

-- Where the system gives a buffer of records that are not empty and fill it, cpus_info gives, in
-- their order, an entry for each record of a processor set.
pub cpus_info_lem :
    (cpu_bytes : ℕ) (query : ℕ → Answer CpuSetInformation) (infos : List CpuSetInformation)
    → All (λ info. 0 < info.size) infos
    → cpu_sets cpu_bytes query ≡ ok (infos, total CpuSetInformation.size infos)
    → cpus_info cpu_bytes query ≡ ok (entries infos)
unfolding cpus_info
cpus_info_lem cpu_bytes query infos h e = rw (e, visit-total CpuSetInformation.size infos h)
