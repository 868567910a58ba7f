-- ===== src/Win/Blocks.antt =====
-- Blocks of utils/win/memory.cpp from their allocation to their end.
use fb_utils.Prelude.{
  ℕ, ◌+◌, ◌^◌, ◌%◌, ◌<◌, ◌≡◌, ◌⊎◌, refl, inl, inr, false, true, List, ◌∷◌, Option, none, some, ◌==◌,
  ok, arith,
}
use fb_utils.Win.HugePages.{System, rounded}
use fb_utils.Win.Regions.{rounded-bounds}
use fb_utils.Win.Memory.{MemoryCalls, page_size, alloc_mem, destroy, free_memory}

-- The documented behaviour: `regions` are those that are reserved, and the last one can be freed.
pub record Documented {S : Type 0} (m : MemoryCalls S) : Type 0 where
  pub regions : S → List ℕ
  pub virtual_alloc_lem :
      (size : ℕ) (s : S)
      → (((m.virtual_alloc size s).0 ≡ none) × (regions (m.virtual_alloc size s).1 ≡ regions s))
        ⊎ ((p : ℕ) × ((m.virtual_alloc size s).0 ≡ some p)
            × (regions (m.virtual_alloc size s).1 ≡ p ∷ regions s))
  pub virtual_free_lem :
      (p : ℕ) (ps : List ℕ) (s : S) → regions s ≡ p ∷ ps → regions (m.virtual_free p s) ≡ ps

-- A size that is rounded up to whole pages, where the sum does not overflow, is allocated without a
-- failed assertion; and when the block goes again, it is freed, so that the regions are as before.
pub destroy-alloc_mem :
    {S : Type 0} (m : MemoryCalls S) (d : Documented m) (system : System) (size page : ℕ) (s : S)
    → 0 < page
    → size + page < 2 ^ 64
    → (mem : Option ℕ) × (static_size : Option ℕ) × (after : S) × (end : S) × (alloc_mem m
          (rounded system size page)
          (some page)
          s
        ≡ ok (mem, static_size, after))
      × (destroy m mem after ≡ ok end)
      × (d.regions end ≡ d.regions s)
unfolding alloc_mem page_size destroy free_memory
destroy-alloc_mem m d system size page s h k =
    let bounds = rounded-bounds system size page h k in
    let some_page : (page == 0) ≡ false = ground arith in
    let whole_pages : (rounded system size page % page == 0) ≡ true = ground (arith, bounds.2) in
    let r = m.virtual_alloc (rounded system size page) s in
    elim (d.virtual_alloc_lem (rounded system size page) s) [
      | inl (e, same) ↦ (none, some page, r.1, r.1, rw (some_page, whole_pages, e) refl, refl, same)
      | inr (p, e, more) ↦ (
        some p,
        some page,
        r.1,
        m.virtual_free p r.1,
        rw (some_page, whole_pages, e) refl,
        refl,
        d.virtual_free_lem p (d.regions s) r.1 more,
      )
    ]
