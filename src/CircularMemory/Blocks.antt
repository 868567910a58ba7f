-- ===== src/CircularMemory/Blocks.antt =====
-- The invariant of utils/circular_memory.hpp: the blocks that are taken lie behind one another on
-- the circle, from the newest, which ends at `tail_`, to the oldest.
use fb_utils.Prelude.{ℕ, ◌+◌, ◌-◌, ◌^◌, ◌≤◌, ◌<◌, ◌≡◌, ◌⊎◌, List, [], ◌∷◌, leb, if◌then◌else◌}
use fb_utils.CircularMemory.Bytes.{load}
use fb_utils.CircularMemory.{CircularMemory, size_bytes}

-- A block: the offset of its total in the buffer, the bytes asked for, and the total.
pub record Block : Type 0 where
  pub header : ℕ
  pub len : ℕ
  pub used : ℕ

-- Where the bytes asked for start, from the start of the buffer.
abbrev pub payload : Block → ℕ
payload b = b.header + size_bytes

-- How far an offset is ahead of the tail, going round at the end of the buffer.
abbrev pub ahead : ℕ → ℕ → ℕ → ℕ
ahead size tail o = if leb tail o then o - tail else o + size - tail

-- The total and the bytes of a block lie in the buffer in one piece, at the distances from the tail
-- at which the blocks that are `newer` bytes newer begin.
pub record Lies (size tail newer : ℕ) (b : Block) : Type 0 where
  pub in_buffer : payload b + b.len ≤ size
  pub unbroken : (tail ≤ b.header) ⊎ (payload b + b.len ≤ tail)
  pub from_start : size ≤ ahead size tail b.header + newer + b.used
  pub to_end : ahead size tail b.header + size_bytes + b.len + newer ≤ size

-- The blocks, the newest first, with `newer` bytes taken after them, fill what is not free.
abbrev pub Tiles : CircularMemory → ℕ → List Block → Type 0
Tiles m newer [] = m.free + newer ≡ m.size
Tiles m newer (b ∷ bs) =
    Lies m.size m.tail newer b
    × (load size_bytes m.memory (m.begin + b.header) ≡ b.used)
    × Tiles m (newer + b.used) bs

pub record IsValid (m : CircularMemory) (blocks : List Block) : Type 0 where
  pub small : m.size < 2 ^ 63
  pub tail_in : m.tail < m.size
  pub tiles : Tiles m 0 blocks
