-- ===== src/Win/HugePages.antt =====
-- utils/win/huge_pages.cpp and `size_in_blocks` of utils/memory.hpp. The privileges of the
-- process, `GetLargePageMinimum`, the page size and `VirtualAllocEx` are parameters.
use fb_utils.Prelude.{
  ℕ, ◌+◌, ◌-◌, ◌*◌, ◌/◌, ◌%◌, ◌^◌, Bool, true, false, not, ◌&&◌, Option, none, some, ◌==◌,
  if◌then◌else◌, Result, ok, fault, Never,
}

-- `(size + block - 1) / block` on std::size_t.
abbrev pub size_in_blocks : ℕ → ℕ → ℕ
size_in_blocks size block = (size + block + (2 ^ 64 - 1)) % 2 ^ 64 / block

-- `strict` is `huge_pages`, `relaxed` is `memory`.
pub data AllocationType : Type 0 where
  huge_pages : AllocationType
  memory : AllocationType

pub record AllocationParameters : Type 0 where
  pub numa_node : Option ℕ
  pub size : ℕ
  pub type : AllocationType
  pub page_size : ℕ

-- The system. `virtual_alloc` has the flag MEM_LARGE_PAGES, the size and the node, and gives the
-- address or null.
pub record System : Type 0 where
  pub open_process_token : Bool
  pub lookup_privilege_value : Bool
  pub adjust_token_privileges : Bool
  pub last_error : ℕ
  pub large_page_minimum : ℕ
  pub page_size : ℕ
  pub virtual_alloc : Bool → ℕ → Option ℕ → Option ℕ

abbrev pub is_strict : AllocationType → Bool
is_strict huge_pages = true
is_strict memory = false

abbrev pub is_null : Option ℕ → Bool
is_null none = true
is_null (some p) = false

module _ (system : System) where
  unfoldable pub enable_hugepage_privilege : Bool
  enable_hugepage_privilege =
      system.open_process_token
      && system.lookup_privilege_value
      && system.adjust_token_privileges
      && system.last_error == 0

  unfoldable pub huge_page_size : ℕ
  unfolding enable_hugepage_privilege
  huge_page_size = if enable_hugepage_privilege then system.large_page_minimum else 0

  -- It throws nothing; where there are large pages, the assertion is that the size is whole ones.
  unfoldable pub alloc_huge_pages : ℕ → Option ℕ → Result {0, 0} Never (Option ℕ)
  unfolding huge_page_size
  alloc_huge_pages size numa_node =
      if huge_page_size == 0
      then ok none
      else if size % huge_page_size == 0
      then ok (system.virtual_alloc true size numa_node)
      else fault

  -- The rounded size for a page size.
  abbrev pub rounded : ℕ → ℕ → ℕ
  rounded size page_size = size_in_blocks size page_size * page_size % 2 ^ 64

  -- The end: the parameters tell what was allocated.
  abbrev pub finish :
      Option ℕ → ℕ → AllocationType → AllocationParameters → Option ℕ × AllocationParameters
  finish none size type params = (none, params)
  finish (some p) size type params = (some p, record params { size = size; type = type })

  -- An allocation of ordinary pages.
  unfoldable pub alloc_ordinary : AllocationParameters → Option ℕ × AllocationParameters
  alloc_ordinary params =
      let size = rounded params.size system.page_size in
      finish (system.virtual_alloc false size params.numa_node) size memory
        (record params { page_size = system.page_size })

  -- The first attempt is one of large pages, and a caller that is not strict gets another.
  unfoldable pub alloc_large : ℕ → AllocationParameters → Option ℕ × AllocationParameters
  alloc_large page_size params =
      let size = rounded params.size page_size in
      let mem = system.virtual_alloc true size params.numa_node in
      if is_null mem && not (is_strict params.type)
      then alloc_ordinary params
      else finish mem size huge_pages (record params { page_size = page_size })

  unfoldable pub alloc_huge_region : AllocationParameters → Option ℕ × AllocationParameters
  alloc_huge_region params =
      if huge_page_size == 0
      then (if is_strict params.type
          then (none, record params { page_size = 0 })
          else alloc_ordinary params)
      else alloc_large huge_page_size params

  unfoldable pub alloc_huge_region_of_size : ℕ → Option ℕ → Option ℕ
  alloc_huge_region_of_size size numa_node =
      (alloc_huge_region
        (record { numa_node = numa_node; size = size; type = memory; page_size = 0 })).0
