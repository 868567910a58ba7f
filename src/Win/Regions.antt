-- ===== src/Win/Regions.antt =====
-- `alloc_huge_region` of utils/win/huge_pages.cpp: what the caller learns of an allocation.
use fb_utils.Prelude.{
  ℕ, ◌+◌, ◌-◌, ◌*◌, ◌/◌, ◌%◌, ◌^◌, ◌≤◌, ◌<◌, ◌≡◌, refl, sym, ◌∙◌, not, ◌&&◌, Bool-cases, inl, inr,
  ap, Bool, true, false, Option, none, some, ◌==◌, if◌then◌else◌, arith,
}
use native.Mathlib.Nat.{div-add-mod, mod-lt, mul-mod_left, mul_comm, mod-eq_of_lt}
use fb_utils.Win.HugePages.{
  size_in_blocks, AllocationType, huge_pages, memory, AllocationParameters, System, is_strict,
  is_null, huge_page_size, rounded, finish, alloc_ordinary, alloc_large, alloc_huge_region,
}

-- The number of blocks, where the sum does not overflow.
blocks : (n page : ℕ) → 0 < page → n + page < 2 ^ 64 → size_in_blocks n page ≡ (n + page - 1) / page
blocks n page h k =
    let e : (n + page + (2 ^ 64 - 1)) % 2 ^ 64 ≡ n + page - 1 = omega arith in ap (λ x. x / page) e

whole_pages :
    (n page : ℕ)
    → 0 < page
    → (n ≤ (n + page - 1) / page * page) × ((n + page - 1) / page * page < n + page)
whole_pages n page h =
    let q = (n + page - 1) / page in
    grind (arith, div-add-mod (n + page - 1) page, mod-lt (n + page - 1) h, mul_comm page q)

-- The requested size rounded up to whole pages, where nothing overflows.
pub rounded-bounds :
    (system : System) (n page : ℕ)
    → 0 < page
    → n + page < 2 ^ 64
    → (n ≤ rounded system n page)
      × (rounded system n page < n + page)
      × (rounded system n page % page ≡ 0)
rounded-bounds system n page h k =
    let w = whole_pages n page h in
    let small : (n + page - 1) / page * page < 2 ^ 64 = omega (arith, w.1) in
    rw (blocks n page h k, mod-eq_of_lt small) (w.0, w.1, mul-mod_left ((n + page - 1) / page) page)

-- The page size of a kind of allocation.
abbrev pub page_of : System → AllocationType → ℕ
page_of system huge_pages = huge_page_size system
page_of system memory = system.page_size

-- What the call says of the region that it returns: the system has given the region of that size
-- and kind, the size is in whole pages of the kind and not below the request, and a strict request
-- has large pages. Without a region the size and the kind are those of the request.
abbrev pub Tells : System → AllocationParameters → Option ℕ × AllocationParameters → Type 0
Tells system params (none, out) = (out.size ≡ params.size) × (out.type ≡ params.type)
Tells system params (some p, out) =
    (system.virtual_alloc (is_strict out.type) out.size params.numa_node ≡ some p)
    × (out.page_size ≡ page_of system out.type)
    × (params.size ≤ out.size)
    × (out.size < params.size + out.page_size)
    × (out.size % out.page_size ≡ 0)
    × (is_strict params.type ≡ true → is_strict out.type ≡ true)

finish_lem :
    (system : System) (params : AllocationParameters) (type : AllocationType)
    → 0 < page_of system type
    → params.size + page_of system type < 2 ^ 64
    → (is_strict params.type ≡ true → is_strict type ≡ true)
    → (mem : Option ℕ)
    → system.virtual_alloc
        (is_strict type)
        (rounded system params.size (page_of system type))
        params.numa_node
      ≡ mem
    → Tells system params (
        finish system mem
          (rounded system params.size (page_of system type))
          type
          (record params { page_size = page_of system type }))
finish_lem system params type h k strict none e = (refl, refl)
finish_lem system params type h k strict (some p) e =
    let b = rounded-bounds system params.size (page_of system type) h k in
    (e, refl, b.0, b.1, b.2, strict)

alloc_ordinary_lem :
    (system : System) (params : AllocationParameters)
    → 0 < system.page_size
    → params.size + system.page_size < 2 ^ 64
    → is_strict params.type ≡ false
    → Tells system params (alloc_ordinary system params)
unfolding alloc_ordinary
alloc_ordinary_lem system params h k relaxed =
    finish_lem system params memory h k (λ s. sym relaxed ∙ s) _ refl

alloc_large_lem :
    (system : System) (params : AllocationParameters)
    → 0 < system.page_size
    → params.size + system.page_size < 2 ^ 64
    → 0 < huge_page_size system
    → params.size + huge_page_size system < 2 ^ 64
    → (mem : Option ℕ) (strict : Bool)
    → system.virtual_alloc true
        (rounded system params.size (huge_page_size system))
        params.numa_node
      ≡ mem
    → is_strict params.type ≡ strict
    → Tells system params (
        if is_null mem && not strict
        then alloc_ordinary system params
        else finish system mem
            (rounded system params.size (huge_page_size system))
            huge_pages
            (record params { page_size = huge_page_size system }))
alloc_large_lem system params h k h' l none true e s = (refl, refl)
alloc_large_lem system params h k h' l none false e s = alloc_ordinary_lem system params h k s
alloc_large_lem system params h k h' l (some p) strict e s =
    finish_lem system params huge_pages h' l (λ _. refl) (some p) e

-- Without large pages.
alloc_without_lem :
    (system : System) (params : AllocationParameters)
    → 0 < system.page_size
    → params.size + system.page_size < 2 ^ 64
    → (strict : Bool) → is_strict params.type ≡ strict
    → Tells system params
        (if strict then (none, record params { page_size = 0 }) else alloc_ordinary system params)
alloc_without_lem system params h k true e = (refl, refl)
alloc_without_lem system params h k false e = alloc_ordinary_lem system params h k e

-- Where the sizes do not overflow, alloc_huge_region gives a region of whole pages, of which the
-- parameters then tell the size, the kind and the page size, and never ordinary pages for a strict
-- request; or none, and then the parameters keep the size and the kind.
pub alloc_huge_region-Tells :
    (system : System) (params : AllocationParameters)
    → 0 < system.page_size
    → params.size + system.page_size < 2 ^ 64
    → params.size + huge_page_size system < 2 ^ 64
    → Tells system params (alloc_huge_region system params)
unfolding alloc_huge_region alloc_large
alloc_huge_region-Tells system params h k l = elim (Bool-cases (huge_page_size system == 0)) [
  | inl e ↦ rw (e) (alloc_without_lem system params h k _ refl)
  | inr e ↦ rw (e) (alloc_large_lem system params h k (ground arith) l _ _ refl refl)
]
