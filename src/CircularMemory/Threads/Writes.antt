-- ===== src/CircularMemory/Threads/Writes.antt =====
-- The owners of the blocks of utils/circular_memory.hpp write to their bytes.
use fb_utils.Prelude.{ℕ, ◌+◌, ◌≤◌, ◌<◌, ◌⊎◌, inl, ◌∙◌, List, [], ◌∷◌, arith, All}
use fb_utils.CircularMemory.Bytes.{Memory, load-eq, write}
use fb_utils.CircularMemory.Blocks.{Block, payload, IsValid}
use fb_utils.CircularMemory.Note.{Tiles-memory, HeaderKept, advanced-IsValid}
use fb_utils.CircularMemory.Release.{Apart, AllApart, IsValid-AllApart}
use fb_utils.CircularMemory.Threads.{Plan, Member, here, there}
use fb_utils.CircularMemory.{CircularMemory, size_bytes}
use fb_utils.CircularMemory.Threads.Invariant.{IsNoted, still_fits}

pub Member-Apart : (b c : Block) (bs : List Block) → All (Apart c) bs → Member b bs → Apart c b
Member-Apart b c [] h m = elim m [ ]
Member-Apart b c (_ ∷ bs) (a, others) here = a
Member-Apart b c (_ ∷ bs) (a, others) (there m) = Member-Apart b c bs others m

-- The total in front of a block is not among the bytes of a block.
abbrev pub HeaderApart : Block → Block → Type 0
HeaderApart b c = (payload c ≤ payload b) ⊎ (payload b + b.len ≤ c.header)

pub All-HeaderApart : (b : Block) (bs : List Block) → All (Apart b) bs → All (HeaderApart b) bs
All-HeaderApart b [] h = tt
All-HeaderApart b (c ∷ bs) (h, hs) = (ground arith, All-HeaderApart b bs hs)

pub Member-HeaderApart :
    (b : Block) (bs : List Block) → AllApart bs → Member b bs → All (HeaderApart b) bs
Member-HeaderApart b [] h m = elim m [ ]
Member-HeaderApart b (_ ∷ bs) (a, rest) here = (inl (omega arith), All-HeaderApart b bs a)
Member-HeaderApart b (c ∷ bs) (a, rest) (there m) =
    let ac = Member-Apart b c bs a m in (ground (arith, ac), Member-HeaderApart b bs rest m)

-- A byte of a live block is written.
module _ (m : CircularMemory) (b : Block) (i v : ℕ) (inside : i < b.len) where
  abbrev pub changed : Memory
  changed = write m.memory (m.begin + payload b + i) v

  pub HeaderApart-HeaderKept :
      (bs : List Block) → All (HeaderApart b) bs → All (HeaderKept m changed) bs
  HeaderApart-HeaderKept [] h = tt
  HeaderApart-HeaderKept (c ∷ bs) (h, hs) =
      ((λ x lo hi. ground arith), HeaderApart-HeaderKept bs hs)

  pub with_byte-IsValid :
      (live : List Block)
      → IsValid m live
      → Member b live
      → IsValid (record m { memory = changed }) live
  with_byte-IsValid live valid mem =
      let apart = (IsValid-AllApart m live valid).0 in
      record {
        small = valid.small;
        tail_in = valid.tail_in;
        tiles =
            Tiles-memory m changed 0 live
              (HeaderApart-HeaderKept live (Member-HeaderApart b live apart mem)) valid.tiles;
      }

  -- The total of a plan, of which the block is apart from the live ones, is not touched.
  pub with_byte-IsNoted :
      (n : ℕ) (p : Plan) (live : List Block)
      → IsValid m live
      → p.total ≤ m.free
      → Member b live
      → IsNoted m n p
      → IsNoted (record m { memory = changed }) n p
  unfolding still_fits
  with_byte-IsNoted n p live valid fits mem (f, e) =
      let taken = advanced-IsValid m f.header p.total n f.room live valid fits e in
      let block : Block = record { header = f.header; len = n; used = p.total } in
      let apart = (IsValid-AllApart _ (block ∷ live) taken).0.0 in
      let new = Member-Apart b block live apart mem in
      (
        still_fits m m.free changed f,
        load-eq size_bytes changed m.memory (m.begin + f.header) (λ x lo hi. ground (arith, new))
            ∙ e,
      )
