-- ===== src/Win/Experimental.antt =====
-- utils/win/experimental/sysinfo.hpp: the processors of utils/win/sysinfo.cpp as a range over the
-- records of a buffer. `GetSystemCpuSetInformation` is a parameter.
pub mod Agree
use fb_utils.Prelude.{
  ℕ, zero, suc, ◌-◌, ◌*◌, List, [], ◌∷◌, if◌then◌else◌, ltb, ◌==◌, Result, ok, err, fault, timeout,
  ◌>>=◌,
}
use fb_utils.Win.Sysinfo.{
  CpuInfo, CpuSetInformation, Answer, success, insufficient_buffer, failed, first_answer,
}

-- From `begin` to `end` by the iterator, whose end is met exactly or not at all. A record of size 0
-- would keep the iterator where it is.
unfoldable pub walk : ℕ → List CpuSetInformation → Result ℕ (List CpuSetInformation)
walk zero infos = ok []
walk (suc bytes) [] = fault
walk (suc bytes) (info ∷ infos) =
    let rest = walk (suc bytes - info.size) infos in
    if info.size == 0
    then timeout
    else if ltb (suc bytes) info.size
    then fault
    else (rest >>= λ visited. ok (info ∷ visited))

-- `views::filter` and `views::transform`.
unfoldable pub chosen : List CpuSetInformation → List CpuInfo
chosen [] = []
chosen (info ∷ infos) =
    let rest = chosen infos in if info.is_cpu_set then info.cpu_set ∷ rest else rest

-- `sizeof(SYSTEM_CPU_SET_INFORMATION)`.
module _ (cpu_bytes : ℕ) where
  -- The constructor of `cpu_set_info`.
  unfoldable pub cpu_set_info :
      (ℕ → Answer CpuSetInformation) → Result ℕ (List CpuSetInformation × ℕ)
  cpu_set_info query = first_answer query (query (32 * cpu_bytes))

  unfoldable pub cpu_set : (ℕ → Answer CpuSetInformation) → Result ℕ (List CpuInfo)
  unfolding cpu_set_info walk chosen
  cpu_set query = do
    (infos, bytes) ← cpu_set_info query
    visited ← walk bytes infos
    ok (chosen visited)
