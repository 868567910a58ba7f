-- ===== src/Win/Memory.antt =====
-- utils/win/memory.cpp: blocks of whole pages. The calls of Windows are parameters on its state; the
-- static variable of `page_size` is an argument and a result.
use fb_utils.Prelude.{ℕ, ◌%◌, Option, none, some, ◌==◌, if◌then◌else◌, Str, Result, ok, fault}

-- `GetSystemInfo`, `VirtualAllocEx` with a size, which gives an address or null, and `VirtualFree`.
pub record MemoryCalls (S : Type 0) : Type 0 where
  pub get_system_info : S → ℕ
  pub virtual_alloc : ℕ → S → Option ℕ × S
  pub virtual_free : ℕ → S → S

module _ {S : Type 0} (m : MemoryCalls S) where
  -- The first call sets `size`.
  unfoldable pub page_size : Option ℕ → S → ℕ × Option ℕ
  page_size none s = (m.get_system_info s, some (m.get_system_info s))
  page_size (some size) s = (size, some size)

  -- `free_memory::operator()`
  unfoldable pub free_memory : Option ℕ → S → Result Str S
  free_memory none s = fault
  free_memory (some mem) s = ok (m.virtual_free mem s)

  -- The block, the static variable and the system; a remainder of 0 pages is undefined.
  unfoldable pub alloc_mem : ℕ → Option ℕ → S → Result Str (Option ℕ × Option ℕ × S)
  unfolding page_size
  alloc_mem size static_size s =
      let (page, now_set) = page_size static_size s in
      if page == 0
      then fault
      else if size % page == 0
      then (let (mem, after) = m.virtual_alloc size s in ok (mem, now_set, after))
      else fault

  -- A memory_block goes: a std::unique_ptr calls its deleter on a pointer that is not null.
  unfoldable pub destroy : Option ℕ → S → Result Str S
  unfolding free_memory
  destroy none s = ok s
  destroy (some mem) s = free_memory (some mem) s
