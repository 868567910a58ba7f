-- ===== src/CircularMemory/Allocate.antt =====
-- `allocate` of utils/circular_memory.hpp keeps the invariant.
use fb_utils.Prelude.{
  ℕ, ◌+◌, ◌%◌, ◌≤◌, ◌<◌, ◌≡◌, ◌⊎◌, List, ◌∷◌, Option, none, some, arith, ok, err, fault, timeout,
}
use fb_utils.CircularMemory.Blocks.{Block, payload, IsValid}
use fb_utils.CircularMemory.Note.{Tiles-le}
use fb_utils.CircularMemory.Align.{NoRoom}
use fb_utils.CircularMemory.{CircularMemory, size_bytes, split_space, Checked}

-- What `allocate` returned: an aligned address of a new block of `n` bytes, in front of the others.
-- Only the eight bytes in front of it have changed.
pub record Allocated (m m' : CircularMemory) (n alignment res : ℕ) (bs : List Block) : Type 0 where
  pub block : Block
  pub at_res : m.begin + payload block ≡ res
  pub len_is : block.len ≡ n
  pub aligned : res % alignment ≡ 0
  pub buffer : (m'.begin ≡ m.begin) × (m'.size ≡ m.size)
  pub taken : m'.free + block.used ≡ m.free
  pub valid : IsValid m' (block ∷ bs)
  pub others : (x : ℕ) → (x + size_bytes < res) ⊎ (res ≤ x) → m'.memory x ≡ m.memory x

-- The free bytes, split at the end of the buffer.
pub record Parts (m : CircularMemory) : Type 0 where
  pub whole : (split_space m).0 + (split_space m).1 ≡ m.free
  pub first_in : m.tail + (split_space m).0 ≤ m.size
  pub second_in : (split_space m).1 ≤ m.tail
  pub second_after : ((split_space m).1 ≡ 0) ⊎ (m.tail + (split_space m).0 ≡ m.size)

pub split_space-Parts : (m : CircularMemory) (bs : List Block) → IsValid m bs → Parts m
unfolding split_space
split_space-Parts m bs v =
    let le = Tiles-le m 0 bs v.tiles in let small = v.small in let low = v.tail_in in ground arith

-- `allocate` returns an address of a new block, or it changes nothing, and then neither part of the
-- free bytes has room. No assertion fails.
abbrev pub Serves :
    CircularMemory → List Block → ℕ → ℕ → Checked (Option ℕ × CircularMemory) → Type 0
Serves m bs n alignment (ok (none, m')) =
    (m' ≡ m)
    × NoRoom n alignment (m.begin + m.tail) (split_space m).0
    × NoRoom n alignment m.begin (split_space m).1
Serves m bs n alignment (ok (some res, m')) = Allocated m m' n alignment res bs
Serves m bs n alignment (err e) = ⊥
Serves m bs n alignment fault = ⊥
Serves m bs n alignment timeout = ⊥
