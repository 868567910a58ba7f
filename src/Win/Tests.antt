-- ===== src/Win/Tests.antt =====
-- Runs of utils/win, and instances of its theorems.
use fb_utils.Prelude.{
  map, ℕ, ◌≡◌, ◌↔◌, refl, List, [], ◌∷◌, true, false, none, some, arith, if◌then◌else◌, ltb, ok,
  err,
}
use fb_utils.Win.Nic.{
  Answer, success, buffer_overflow, error_buffer_overflow, min_size, get_adapters_from,
  get_adapters_addresses,
}
use fb_utils.Win.Attempts.{Serves, get_adapters_addresses_iff}
use fb_utils.Win.Sysinfo.{
  CpuInfo, CpuSetInformation, insufficient_buffer, cpus_info, entry_of, Answer as CpuAnswer,
  success as cpu_success,
}
use fb_utils.Win.Experimental.{cpu_set, chosen}
use fb_utils.Win.Experimental.Agree.{Has, cpu_set-Agrees}
use fb_utils.Win.HugePages.{
  AllocationParameters, System, memory, alloc_huge_region, alloc_ordinary, alloc_large,
  huge_page_size, enable_hugepage_privilege,
}
use fb_utils.Win.Regions.{Tells, alloc_huge_region-Tells}

-- Large pages of 2 MiB are enabled, and there are none left.
abbrev exhausted : System
exhausted = record {
  open_process_token = true;
  lookup_privilege_value = true;
  adjust_token_privileges = true;
  last_error = 0;
  large_page_minimum = 2097152;
  page_size = 4096;
  virtual_alloc = λ large size node. if large then none else some 65536;
}

abbrev request : AllocationParameters
request = record { numa_node = none; size = 5000; type = memory; page_size = 0 }

falls_back :
    alloc_huge_region exhausted request
    ≡ (some 65536, record { numa_node = none; size = 8192; type = memory; page_size = 4096 })
unfolding alloc_huge_region alloc_ordinary alloc_large huge_page_size enable_hugepage_privilege
falls_back = refl

alloc_huge_region-Tells_example : Tells exhausted request (alloc_huge_region exhausted request)
unfolding huge_page_size enable_hugepage_privilege
alloc_huge_region-Tells_example =
    alloc_huge_region-Tells exhausted request (omega arith) (omega arith) (omega arith)

-- A system that wants 20000 bytes.
abbrev adapters_query : ℕ → Answer
adapters_query size = if ltb size 20000 then buffer_overflow 20000 else success []

one_retry : get_adapters_addresses adapters_query 1 ≡ err error_buffer_overflow
unfolding get_adapters_addresses get_adapters_from
one_retry = refl

get_adapters_addresses_iff_example :
    (get_adapters_addresses adapters_query 3 ≡ ok []) ↔ Serves adapters_query min_size 3 []
get_adapters_addresses_iff_example = get_adapters_addresses_iff adapters_query 3 []

abbrev cpu : CpuInfo
cpu = record {
  id = 65792;
  group = 0;
  cpu_ix = 1;
  core_ix = 1;
  numa_node_ix = 0;
  efficiency_class = 0;
  real_time = false;
  parked = false;
  allocated = true;
  allocated_to_target_process = true;
}

abbrev cpu_sets_read : List CpuSetInformation
cpu_sets_read =
    record { size = 32; is_cpu_set = true; cpu_set = cpu }
    ∷ record { size = 24; is_cpu_set = false; cpu_set = cpu }
    ∷ []

-- The first call has 32 bytes, and 56 are asked for.
abbrev cpu_query : ℕ → CpuAnswer CpuSetInformation
cpu_query size = if ltb size 56 then insufficient_buffer 56 else cpu_success cpu_sets_read 56

cpu_query-Has : Has cpu_sets_read cpu_query
cpu_query-Has = record {
  nonempty_lem = (omega arith, (omega arith, tt));
  enough = λ bytes h. ground arith;
  too_small = λ bytes h. ground arith;
}

cpu_set-Agrees_example :
    (cpu_set 2 cpu_query ≡ ok (chosen cpu_sets_read))
    × (cpus_info 2 cpu_query ≡ ok (map entry_of (chosen cpu_sets_read)))
cpu_set-Agrees_example = cpu_set-Agrees 2 cpu_query cpu_sets_read cpu_query-Has
