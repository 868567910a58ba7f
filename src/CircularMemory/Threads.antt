-- ===== src/CircularMemory/Threads.antt =====
-- utils/circular_memory.hpp used by two threads: one allocates, one releases. Each access to the
-- shared counter and to the buffer is a step, and the steps of the two come in any order; the
-- accesses are taken to be sequentially consistent. The releasing thread gives back the oldest
-- block, and the owners of the blocks write to their bytes at any time. The assertions of `allocate`
-- are no steps: what is shown holds without them too.
pub mod Plans
pub mod Invariant
mod Writes
pub mod Consistent
pub mod Drains
mod Tests
use fb_utils.Prelude.{
  ℕ, ◌+◌, ◌-◌, ◌%◌, ◌^◌, ◌≤◌, ◌<◌, ◌≡◌, List, [], ◌∷◌, ◌++◌, Option, none, some, ok, ◌>>=◌,
}
use fb_utils.CircularMemory.Bytes.{store, write}
use fb_utils.CircularMemory.Blocks.{Block, payload}
use fb_utils.CircularMemory.{
  CircularMemory, Checked, size_bytes, add_size, sub_size, split_space, pad_n_align, used_memory,
}

-- What `allocate` has found before it changes anything: the address, and the total.
pub record Plan : Type 0 where
  pub res : ℕ
  pub total : ℕ

unfoldable pub plan_at : ℕ → ℕ → Option ℕ → Option Plan
plan_at pointer size none = none
plan_at pointer size (some res) = some (record { res = res; total = add_size size (res - pointer) })

unfoldable pub plan_tail : CircularMemory → ℕ → ℕ → Option ℕ → Checked (Option Plan)
unfolding plan_at
plan_tail m size alignment none =
    pad_n_align alignment size m.begin (split_space m).1
    >>= (λ res. ok (plan_at m.begin (add_size size (split_space m).0) res))
plan_tail m size alignment (some res) = ok (plan_at (m.begin + m.tail) size (some res))

-- The first part, in which the counter is read.
unfoldable pub plan : CircularMemory → ℕ → ℕ → Checked (Option Plan)
unfolding plan_tail
plan m size alignment =
    pad_n_align alignment size (m.begin + m.tail) (split_space m).0
    >>= (λ res. plan_tail m size alignment res)

-- `std::memcpy` of the total.
unfoldable pub note_total : Plan → CircularMemory → CircularMemory
note_total p m = record m { memory = store size_bytes m.memory (p.res - size_bytes) p.total }

-- `free_.counter -= size`
unfoldable pub subtract_free : Plan → CircularMemory → CircularMemory
subtract_free p m = record m { free = sub_size m.free p.total }

-- The change of `tail_`, which no other thread reads.
unfoldable pub move_tail : Plan → CircularMemory → CircularMemory
move_tail p m = record m { tail = add_size m.tail p.total % m.size }

-- `free_.counter += …`
unfoldable pub add_free : ℕ → CircularMemory → CircularMemory
add_free used m = record m { free = add_size m.free used }

-- Where the allocating thread is: out of `allocate`, or in it with a size and what it has found.
pub data Allocator : Type 0 where
  outside : Allocator
  planned : ℕ → Plan → Allocator
  written : ℕ → Plan → Allocator
  subtracted : ℕ → Plan → Allocator

-- Where the releasing thread is: out of `release`, or in it with what `used_memory` has given for a
-- block.
pub data Releaser : Type 0 where
  waiting : Releaser
  loaded : Block → ℕ → Releaser

-- The memory, the two threads, and the blocks that have been handed out, the newest first.
pub record Threads : Type 0 where
  pub shared : CircularMemory
  pub allocator : Allocator
  pub releaser : Releaser
  pub live : List Block

-- The block of a plan.
abbrev pub block_of : CircularMemory → ℕ → Plan → Block
block_of m n p = record { header = p.res - m.begin - size_bytes; len = n; used = p.total }

abbrev pub with_byte : CircularMemory → ℕ → ℕ → CircularMemory
with_byte m a v = record m { memory = write m.memory a v }

pub data Member (b : Block) : List Block → Type 0 where
  here : {bs : List Block} → Member b (b ∷ bs)
  there : {c : Block} {bs : List Block} → Member b bs → Member b (c ∷ bs)

pub data Step : Threads → Threads → Type 0 where
  begin_allocate :
      (t : Threads) (n alignment : ℕ) (p : Plan)
      → t.allocator ≡ outside
      → n + size_bytes < 2 ^ 64
      → plan t.shared n alignment ≡ ok (some p)
      → Step t (record t { allocator = planned n p })
  write_total :
      (t : Threads) (n : ℕ) (p : Plan)
      → t.allocator ≡ planned n p
      → Step t (record t { shared = note_total p t.shared; allocator = written n p })
  subtract_total :
      (t : Threads) (n : ℕ) (p : Plan)
      → t.allocator ≡ written n p
      → Step t (record t { shared = subtract_free p t.shared; allocator = subtracted n p })
  end_allocate :
      (t : Threads) (n : ℕ) (p : Plan)
      → t.allocator ≡ subtracted n p
      → Step t (record t {
        shared = move_tail p t.shared;
        allocator = outside;
        live = block_of t.shared n p ∷ t.live;
      })
  begin_release :
      (t : Threads) (bs : List Block) (b : Block)
      → t.releaser ≡ waiting
      → t.live ≡ bs ++ (b ∷ [])
      → Step t
          (record t { releaser = loaded b (used_memory t.shared (t.shared.begin + payload b)) })
  end_release :
      (t : Threads) (bs : List Block) (b : Block) (used : ℕ)
      → t.releaser ≡ loaded b used
      → t.live ≡ bs ++ (b ∷ [])
      → Step t (record t { shared = add_free used t.shared; releaser = waiting; live = bs })
  write_byte :
      (t : Threads) (b : Block) (i v : ℕ)
      → Member b t.live
      → i < b.len
      → Step t (record t { shared = with_byte t.shared (t.shared.begin + payload b + i) v })

-- What can come of a state.
pub data Reach (s : Threads) : Threads → Type 0 where
  start : Reach s s
  next : {t u : Threads} → Reach s t → Step t u → Reach s u
