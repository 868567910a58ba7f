-- ===== src/CircularMemory/Threads/Invariant.antt =====
-- What the two threads on utils/circular_memory.hpp rely on, and what their steps make of it.
use fb_utils.Prelude.{ℕ, ◌+◌, ◌-◌, ◌≤◌, ◌≡◌, List, [], ◌∷◌, ◌++◌, arith}
use fb_utils.CircularMemory.Bytes.{Memory, load, store, load-store}
use fb_utils.CircularMemory.Blocks.{Block, IsValid}
use fb_utils.CircularMemory.Note.{Room, Tiles-le, stored-IsValid, advanced-IsValid, advance_lem}
use fb_utils.CircularMemory.Release.{Tiles-without}
use fb_utils.CircularMemory.Threads.Plans.{Fits}
use fb_utils.CircularMemory.Threads.{
  Plan, note_total, move_tail, add_free, Allocator, outside, planned, written, subtracted, Releaser,
  waiting, loaded, Threads, block_of,
}
use fb_utils.CircularMemory.{CircularMemory, size_bytes, add_size}

-- The total of a plan is in its place.
abbrev pub Noted : (m : CircularMemory) (n : ℕ) (p : Plan) → Fits m n p → Type 0
Noted m n p f = load size_bytes m.memory (m.begin + f.header) ≡ p.total

abbrev pub IsNoted : CircularMemory → ℕ → Plan → Type 0
IsNoted m n p = (f : Fits m n p) × Noted m n p f

-- The state in which what has been subtracted is still counted as free.
abbrev pub with_free : CircularMemory → ℕ → CircularMemory
with_free m total = record m { free = m.free + total }

-- What the allocating thread relies on.
abbrev pub Settled : CircularMemory → List Block → Allocator → Type 0
Settled m live outside = IsValid m live
Settled m live (planned n p) = IsValid m live × Fits m n p × (p.total ≤ m.free)
Settled m live (written n p) = IsValid m live × IsNoted m n p × (p.total ≤ m.free)
Settled m live (subtracted n p) = IsValid (with_free m p.total) live × IsNoted m n p

-- What the releasing thread relies on.
abbrev pub IsLoaded : Releaser → Type 0
IsLoaded waiting = Unit
IsLoaded (loaded b used) = used ≡ b.used

abbrev pub IsConsistent : Threads → Type 0
IsConsistent t = Settled t.shared t.live t.allocator × IsLoaded t.releaser

-- There is room whatever happens to the counter and to the bytes.
pub still-Room :
    (m : CircularMemory) (free : ℕ) (memory : Memory) {header total n : ℕ}
    → Room m header total n
    → Room (record m { free = free; memory = memory }) header total n
still-Room m free memory r = record { side = r.side; inside = r.inside; before = r.before }

unfoldable pub still_fits :
    (m : CircularMemory) (free : ℕ) (memory : Memory) {n : ℕ} {p : Plan}
    → Fits m n p
    → Fits (record m { free = free; memory = memory }) n p
still_fits m free memory f = record {
  header = f.header;
  at_res = f.at_res;
  room = still-Room m free memory f.room;
}

pub still-IsNoted :
    (m : CircularMemory) (free : ℕ) {n : ℕ} {p : Plan}
    → IsNoted m n p
    → IsNoted (record m { free = free }) n p
unfolding still_fits
still-IsNoted m free (f, e) = (still_fits m free m.memory f, e)

-- The oldest block is given back, with `more` bytes that count as free.
pub added-IsValid :
    (m : CircularMemory) (more : ℕ) (bs : List Block) (b : Block)
    → IsValid (with_free m more) (bs ++ (b ∷ []))
    → IsValid (with_free (add_free b.used m) more) bs × (m.free ≤ (add_free b.used m).free)
unfolding add_free
added-IsValid m more bs b v =
    let (t, e, le) = Tiles-without (with_free m more) 0 bs b v.tiles in
    let sum : add_size m.free b.used ≡ m.free + b.used = omega (arith, v.small) in
    let turn : m.free + b.used + more ≡ m.free + more + b.used = omega arith in
    rw sum (rw turn (record { small = v.small; tail_in = v.tail_in; tiles = t }), omega arith)

-- The total of a plan is written.
pub note_total-IsValid :
    (m : CircularMemory) (n : ℕ) (p : Plan) (live : List Block)
    → IsValid m live
    → (f : Fits m n p) → p.total ≤ m.free
    → IsValid (note_total p m) live × IsNoted (note_total p m) n p
unfolding note_total still_fits
note_total-IsValid m n p live v f fits =
    let le = Tiles-le m 0 live v.tiles in
    let place : p.res - size_bytes ≡ m.begin + f.header = omega (arith, f.at_res) in
    rw place (
      stored-IsValid m f.header p.total n f.room live v fits,
      (
        still_fits m m.free (store size_bytes m.memory (m.begin + f.header) p.total) f,
        load-store size_bytes m.memory (m.begin + f.header) p.total (omega (arith, v.small)),
      ),
    )

-- The block of a plan is taken.
pub move_tail-IsValid :
    (m : CircularMemory) (n : ℕ) (p : Plan) (live : List Block)
    → IsValid (with_free m p.total) live
    → IsNoted m n p
    → IsValid (move_tail p m) (block_of m n p ∷ live)
unfolding move_tail
move_tail-IsValid m n p live v (f, noted) =
    let le = Tiles-le (with_free m p.total) 0 live v.tiles in
    let taken =
      advanced-IsValid (with_free m p.total) f.header p.total n
        (still-Room m (m.free + p.total) m.memory f.room) live v (omega arith) noted in
    let back : m.free + p.total - p.total ≡ m.free = omega arith in
    let header : f.header ≡ p.res - m.begin - size_bytes = omega (arith, f.at_res) in
    rw (advance_lem m.size m.tail p.total v.small v.tail_in (omega arith))
      (rw (back, header) at taken)
