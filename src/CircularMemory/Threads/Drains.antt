-- ===== src/CircularMemory/Threads/Drains.antt =====
-- The two threads on utils/circular_memory.hpp can always finish, and all memory comes back.
use fb_utils.Prelude.{◌≡◌, List, [], ◌∷◌, ◌++◌}
use fb_utils.CircularMemory.Blocks.{Block}
use fb_utils.CircularMemory.Threads.{outside, Releaser, waiting, loaded, Threads, Reach}
use fb_utils.CircularMemory.{CircularMemory}

-- What the releasing thread has read is of the oldest block.
abbrev Oldest : List Block → Releaser → Type 0
Oldest live waiting = Unit
Oldest live (loaded b used) = (bs : List Block) × (live ≡ bs ++ (b ∷ []))

-- The allocating thread leaves `allocate`, and the releasing thread is where it was.
abbrev Leaves : Threads → Type 0
Leaves t = (u : Threads) × Reach t u × (u.allocator ≡ outside) × (u.releaser ≡ t.releaser)

-- Both threads are at rest, and no block is left.
abbrev Empties : Threads → Type 0
Empties t =
    (u : Threads) × Reach t u × (u.allocator ≡ outside) × (u.releaser ≡ waiting) × (u.live ≡ [])
