-- ===== src/Win/Sysinfo.antt =====
-- utils/win/sysinfo.cpp: the processors, out of the records that Windows writes to a buffer, one
-- after the other, each with its size. `GetLogicalProcessorInformationEx` and
-- `GetSystemCpuSetInformation` are parameters.
use fb_utils.Prelude.{
  ℕ, zero, suc, ◌-◌, ◌*◌, ◌%◌, ◌^◌, Bool, List, [], ◌∷◌, ◌++◌, Option, none, some, ◌==◌,
  if◌then◌else◌, Result, ok, err, fault, timeout, ◌>>=◌,
}

pub data Relationship : Type 0 where
  processor_core : Relationship
  numa_node : Relationship
  cache : Relationship
  numa_node_ex : Relationship

pub record GroupAfinity : Type 0 where
  pub group : ℕ
  pub mask : ℕ

-- What a record says of a core, a node or a cache. `masks` are those that are there, `group_count`
-- the number that it gives.
pub data Payload : Type 0 where
  processor : (efficiency_class group_count : ℕ) (masks : List GroupAfinity) → Payload
  node : (number group_count : ℕ) (masks : List GroupAfinity) → Payload
  cache_level : (level line_size : ℕ) → Payload

pub record Info : Type 0 where
  pub size : ℕ
  pub payload : Payload

-- The answer to a buffer of some bytes: the records and their bytes, or the bytes that are needed,
-- or an error, which may be 0.
pub data Answer {ℓ} (A : Type ℓ) : Type ℓ where
  success : List A → ℕ → Answer A
  insufficient_buffer : ℕ → Answer A
  failed : ℕ → Answer A

-- The records of a buffer up to its end, which the loops `info < end` walk over. A record of size 0
-- would keep the loop where it is.
unfoldable pub visit {ℓ} : {A : Type ℓ} → (A → ℕ) → ℕ → List A → Result ℕ (List A)
visit size zero infos = ok []
visit size (suc bytes) [] = fault
visit size (suc bytes) (info ∷ infos) =
    let rest = visit size (suc bytes - size info) infos in
    if size info == 0 then timeout else (rest >>= λ visited. ok (info ∷ visited))

-- `utils::cpu_info`, and a record with `CpuSet`.
pub record CpuInfo : Type 0 where
  pub id : ℕ
  pub group : ℕ
  pub cpu_ix : ℕ
  pub core_ix : ℕ
  pub numa_node_ix : ℕ
  pub efficiency_class : ℕ
  pub real_time : Bool
  pub parked : Bool
  pub allocated : Bool
  pub allocated_to_target_process : Bool

pub record CpuSetInformation : Type 0 where
  pub size : ℕ
  pub is_cpu_set : Bool
  pub cpu_set : CpuInfo

-- `sizeof(SYSTEM_LOGICAL_PROCESSOR_INFORMATION_EX)`.
module _ (info_bytes : ℕ) where
  -- The loop that grows the buffer, as often as the fuel says.
  unfoldable pub grow : (ℕ → Answer Info) → ℕ → ℕ → Result ℕ (List Info × ℕ)
  grow query zero size = timeout
  grow query (suc fuel) size = elim (query size) [
    | success infos bytes ↦ ok (infos, bytes)
    | insufficient_buffer needed ↦ grow query fuel needed
    | failed error ↦ if error == 0 then fault else err error
  ]

  -- No entry point is an error as well.
  unfoldable pub logical_processor_info :
      (Relationship → Option (ℕ → Answer Info)) → ℕ → ℕ → Relationship → Result ℕ (List Info × ℕ)
  logical_processor_info entry last_error fuel type = elim (entry type) [
    | none ↦ if last_error == 0 then ok ([], 0) else err last_error
    | some query ↦ grow query fuel (5 * info_bytes)
  ]

  module _ (entry : Relationship → Option (ℕ → Answer Info)) (last_error fuel : ℕ) where
    abbrev pub level_one : Payload → Option ℕ
    level_one (cache_level level line_size) = if level == 1 then some line_size else none
    level_one (processor _ _ _) = none
    level_one (node _ _ _) = none

    -- The loop of `cache_line_size`, which ends at the first cache of level 1.
    unfoldable pub first_line_size : ℕ → List Info → Result ℕ ℕ
    first_line_size zero infos = ok 64
    first_line_size (suc bytes) [] = fault
    first_line_size (suc bytes) (info ∷ infos) =
        let rest = first_line_size (suc bytes - info.size) infos in
        elim (level_one info.payload) [
          | some line_size ↦ ok line_size
          | none ↦ if info.size == 0 then timeout else rest
        ]

    abbrev pub cache_line_of : Result ℕ (List Info × ℕ) → Result ℕ ℕ
    cache_line_of (ok (infos, bytes)) = first_line_size bytes infos
    cache_line_of (err error) = ok 64
    cache_line_of fault = fault
    cache_line_of timeout = timeout

    unfoldable pub cache_line_size : Result ℕ ℕ
    cache_line_size = cache_line_of (logical_processor_info entry last_error fuel cache)

    -- The second query, where the first has failed.
    abbrev pub or_else :
        Result ℕ (List Info × ℕ) → Result ℕ (List Info × ℕ) → Result ℕ (List Info × ℕ)
    or_else (err error) second = second
    or_else (ok infos) second = ok infos
    or_else fault second = fault
    or_else timeout second = timeout

    -- The first `n` masks: group and mask are 16 and 64 bits wide.
    unfoldable pub masks_of : ℕ → List GroupAfinity → Result ℕ (List GroupAfinity)
    masks_of zero masks = ok []
    masks_of (suc n) [] = fault
    masks_of (suc n) (m ∷ masks) = do
      rest ← masks_of n masks
      ok (record { group = m.group % 2 ^ 16; mask = m.mask % 2 ^ 64 } ∷ rest)

    abbrev pub node_masks : ℕ → Payload → Result ℕ (List GroupAfinity)
    node_masks n (node number group_count masks) =
        if n == number then masks_of (if group_count == 0 then 1 else group_count) masks else ok []
    node_masks n (processor _ _ _) = fault
    node_masks n (cache_level _ _) = fault

    unfoldable pub all_node_masks : ℕ → List Info → Result ℕ (List GroupAfinity)
    all_node_masks n [] = ok []
    all_node_masks n (info ∷ infos) = do
      masks ← node_masks n info.payload
      rest ← all_node_masks n infos
      ok (masks ++ rest)

    unfoldable pub numa_node_workset : ℕ → Result ℕ (List GroupAfinity)
    numa_node_workset n = do
      (infos, bytes) ←
          or_else (logical_processor_info entry last_error fuel numa_node_ex)
            (logical_processor_info entry last_error fuel numa_node)
      visited ← visit Info.size bytes infos
      all_node_masks n visited

    abbrev pub core_of : Payload → Result ℕ (ℕ × List GroupAfinity)
    core_of (processor efficiency_class group_count masks) = do
      groups ← masks_of group_count masks
      ok (efficiency_class, groups)
    core_of (node _ _ _) = fault
    core_of (cache_level _ _) = fault

    -- `core_info` is the efficiency class and the groups.
    unfoldable pub cores_of : List Info → Result ℕ (List (ℕ × List GroupAfinity))
    cores_of [] = ok []
    cores_of (info ∷ infos) = do
      core ← core_of info.payload
      rest ← cores_of infos
      ok (core ∷ rest)

    unfoldable pub cores_info : Result ℕ (List (ℕ × List GroupAfinity))
    cores_info = do
      (infos, bytes) ← logical_processor_info entry last_error fuel processor_core
      visited ← visit Info.size bytes infos
      cores_of visited

-- The identifier, of 32 bits, becomes an unsigned short.
abbrev pub entry_of : CpuInfo → CpuInfo
entry_of cpu_set = record cpu_set { id = cpu_set.id % 2 ^ 16 }

unfoldable pub entries : List CpuSetInformation → List CpuInfo
entries [] = []
entries (info ∷ infos) =
    let rest = entries infos in if info.is_cpu_set then entry_of info.cpu_set ∷ rest else rest

-- The second answer is not looked into for the size that is needed.
abbrev pub second_answer : Answer CpuSetInformation → Result ℕ (List CpuSetInformation × ℕ)
second_answer (success infos bytes) = ok (infos, bytes)
second_answer (insufficient_buffer needed) = err 122
second_answer (failed error) = err error

-- A buffer that is too small is asked for once more, with the size that is needed.
abbrev pub first_answer :
    (ℕ → Answer CpuSetInformation)
    → Answer CpuSetInformation
    → Result ℕ (List CpuSetInformation × ℕ)
first_answer query (success infos bytes) = ok (infos, bytes)
first_answer query (insufficient_buffer needed) = second_answer (query needed)
first_answer query (failed error) = err error

-- `sizeof(SYSTEM_CPU_SET_INFORMATION)`.
module _ (cpu_bytes : ℕ) where
  unfoldable pub cpu_sets : (ℕ → Answer CpuSetInformation) → Result ℕ (List CpuSetInformation × ℕ)
  cpu_sets query = first_answer query (query (16 * cpu_bytes))

  unfoldable pub cpus_info : (ℕ → Answer CpuSetInformation) → Result ℕ (List CpuInfo)
  cpus_info query = do
    (infos, bytes) ← cpu_sets query
    visited ← visit CpuSetInformation.size bytes infos
    ok (entries visited)
