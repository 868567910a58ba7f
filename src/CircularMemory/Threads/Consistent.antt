-- ===== src/CircularMemory/Threads/Consistent.antt =====
-- The two threads on utils/circular_memory.hpp keep the invariant.
use fb_utils.Prelude.{List}
use fb_utils.CircularMemory.Blocks.{Block}
use fb_utils.CircularMemory.Threads.{outside, waiting, Threads}
use fb_utils.CircularMemory.{CircularMemory}

-- Two threads that have not started, on a valid memory.
abbrev pub at_rest : CircularMemory → List Block → Threads
at_rest m live = record { shared = m; allocator = outside; releaser = waiting; live = live }
