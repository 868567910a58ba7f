-- ===== src/CircularMemory/Threads/Tests.antt =====
-- Two threads on a buffer of 64 bytes, and the instances of the theorems.
use fb_utils.Prelude.{[], ◌∷◌}
use fb_utils.CircularMemory.Threads.{
  Plan, note_total, subtract_free, move_tail, outside, written, waiting, Threads, block_of,
}
use fb_utils.CircularMemory.{CircularMemory, circular_memory}

abbrev fresh : CircularMemory
fresh = circular_memory (λ x. 0) 1000 64

-- The plan for 20 bytes at a multiple of 16.
abbrev first_plan : Plan
first_plan = record { res = 1008; total = 28 }

-- The state when the total has been noted, while the counter still has all bytes.
abbrev midway : Threads
midway = record {
  shared = note_total first_plan fresh;
  allocator = written 20 first_plan;
  releaser = waiting;
  live = [];
}

-- The state when the block has been handed out, and another thread reads its total.
abbrev handed_out : Threads
handed_out = record {
  shared = move_tail first_plan (subtract_free first_plan (note_total first_plan fresh));
  allocator = outside;
  releaser = waiting;
  live = block_of (subtract_free first_plan (note_total first_plan fresh)) 20 first_plan ∷ [];
}
