-- ===== src/Posix/Memory.antt =====
-- utils/posix/memory.cpp, huge_pages.cpp and sysinfo.cpp. What is not written yet gives no memory, no
-- size and no processors; `sysconf` is a parameter, which gives -1 as nothing.
use fb_utils.Prelude.{ℕ, ◌-◌, ◌^◌, List, [], Option, none, some, Str, Result, ok, fault}
use fb_utils.Win.HugePages.{AllocationParameters}
use fb_utils.Win.Sysinfo.{GroupAfinity}

-- `_SC_PAGESIZE` and `_SC_LEVEL1_DCACHE_LINESIZE`.
pub data Name : Type 0 where
  sc_pagesize : Name
  sc_level1_dcache_linesize : Name

-- `static_cast<std::size_t>` of a long.
abbrev pub to_size : Option ℕ → ℕ
to_size none = 2 ^ 64 - 1
to_size (some n) = n

unfoldable pub page_size : (Name → Option ℕ) → ℕ
page_size sysconf = to_size (sysconf sc_pagesize)

unfoldable pub cache_line_size : (Name → Option ℕ) → ℕ
cache_line_size sysconf = to_size (sysconf sc_level1_dcache_linesize)

-- `free_memory::operator()`, which frees nothing.
unfoldable pub free_memory : {S : Type 0} → Option ℕ → S → Result Str S
free_memory none s = fault
free_memory (some mem) s = ok s

unfoldable pub alloc_mem : ℕ → Option ℕ
alloc_mem size = none

abbrev pub huge_page_size : ℕ
huge_page_size = 0

unfoldable pub alloc_huge_pages : ℕ → Option ℕ → Option ℕ
alloc_huge_pages size numa_node = none

unfoldable pub alloc_huge_region_of_size : ℕ → Option ℕ → Option ℕ
alloc_huge_region_of_size size numa_node = none

unfoldable pub alloc_huge_region : AllocationParameters → Option ℕ × AllocationParameters
alloc_huge_region params = (none, params)

unfoldable pub numa_node_workset : ℕ → List GroupAfinity
numa_node_workset node = []
