-- ===== src/CircularMemory/Tests.antt =====
-- Runs of utils/circular_memory.hpp at concrete inputs, and the instances of its theorems.
use fb_utils.Prelude.{
  ◌<◌, ◌-◌, ◌^◌, ◌≡◌, ◌↔◌, refl, [], ◌∷◌, some, none, ok, fault, arith, true, inr,
}
use fb_utils.CircularMemory.{
  CircularMemory, circular_memory, split_space, allocate, release, empty, pad_n_align, align,
  aligned_in, is_doubled, asserted, commit,
}
use fb_utils.CircularMemory.Bytes.{store, load}
use fb_utils.CircularMemory.Blocks.{Block, IsValid}
use fb_utils.CircularMemory.Release.{release-IsValid, empty_iff, allocate_overflow}

abbrev fresh : CircularMemory
fresh = circular_memory (λ x. 0) 1000 64

fresh-IsValid : IsValid fresh []
fresh-IsValid = omega arith

-- The state with a block of 20 bytes.
abbrev one_block : CircularMemory
one_block = record fresh { tail = 28; free = 36; memory = store 8 (λ x. 0) 1000 28 }

-- A block of 20 bytes at an address that is a multiple of 16.
allocate_aligned : allocate fresh 20 16 ≡ ok (some 1008, one_block)
unfolding allocate asserted split_space pad_n_align align aligned_in is_doubled commit
allocate_aligned = refl

-- There is no room for 40 bytes, a size of 0 fails an assertion, and an alignment of 24 is not
-- defined.
allocate_others :
    (allocate one_block 40 1 ≡ ok (none, one_block))
    × (allocate fresh 0 1 ≡ fault)
    × (allocate fresh 20 24 ≡ fault)
unfolding allocate asserted split_space pad_n_align align aligned_in is_doubled commit
allocate_others = (refl, refl, refl)

abbrev block : Block
block = record { header = 0; len = 20; used = 28 }

one_block-IsValid : IsValid one_block (block ∷ [])
unfolding load store
one_block-IsValid = record {
  small = omega arith;
  tail_in = omega arith;
  tiles = (
    record {
      in_buffer = omega arith;
      unbroken = inr (omega arith);
      from_start = omega arith;
      to_end = omega arith;
    },
    refl,
    refl,
  );
}

release-IsValid_example :
    (m : CircularMemory) × (release one_block 1008 ≡ ok m) × IsValid m [] × (m.free ≡ 64)
release-IsValid_example = release-IsValid one_block [] block one_block-IsValid

empty_iff_example : (empty one_block ≡ true) ↔ (block ∷ [] ≡ [])
empty_iff_example = empty_iff one_block (block ∷ []) one_block-IsValid

-- The buffer with no byte free.
abbrev full : CircularMemory
full = record fresh { free = 0 }

full_split : (split_space full).0 < 8
unfolding split_space
full_split = omega arith

full-asserted : asserted full (2 ^ 64 - 8) ≡ true
unfolding asserted split_space
full-asserted = refl

allocate_overflow_example :
    (m : CircularMemory) × (allocate full (2 ^ 64 - 8) 1 ≡ ok (some 1008, m))
allocate_overflow_example = allocate_overflow full full-asserted (omega arith) full_split
