-- ===== src/CircularMemory/Note.antt =====
-- A total that utils/circular_memory.hpp notes in front of a new block leaves the other blocks as
-- they are.
use native.Mathlib.Nat.{mod-eq_of_lt, mod-eq-sub-mod}
use fb_utils.Prelude.{
  ℕ, ◌+◌, ◌-◌, ◌%◌, ◌^◌, ◌≤◌, ◌<◌, ◌≡◌, ◌⊎◌, inl, inr, ◌∙◌, List, [], ◌∷◌, leb, if◌then◌else◌,
  arith, Bool-cases, All,
}
use fb_utils.CircularMemory.Bytes.{Memory, load, store, load-eq, load-store, store-other}
use fb_utils.CircularMemory.Blocks.{Block, ahead, Lies, Tiles, IsValid}
use fb_utils.CircularMemory.{CircularMemory, size_bytes, add_size}

-- A position on the circle, moved on.
abbrev pub advance : ℕ → ℕ → ℕ → ℕ
advance size t u = if leb size (t + u) then t + u - size else t + u

pub advance_lem :
    (size t u : ℕ) → size < 2 ^ 63 → t < size → u ≤ size → add_size t u % size ≡ advance size t u
advance_lem size t u small low h = elim (Bool-cases (leb size (t + u))) [
  | inl e ↦
      let over : size ≤ t + u = ground arith in
      let whole : (t + u) % 2 ^ 64 ≡ t + u = omega arith in
      rw (e, whole, mod-eq-sub-mod {n = t + u} {m = size} over)
        (mod-eq_of_lt {n = t + u - size} {m = size} (omega arith))
  | inr e ↦
      let under : t + u < size = ground arith in
      let whole : (t + u) % 2 ^ 64 ≡ t + u = omega arith in rw (e, whole) (mod-eq_of_lt under)
]

module _ (size tail used newer : ℕ) (b : Block) where
  -- A block keeps its place when the tail moves on over free bytes.
  Lies-advance :
      Lies size tail newer b
      → tail < size
      → newer + b.used + used ≤ size
      → Lies size (advance size tail used) (newer + used) b
  Lies-advance l low h = ground arith

-- What is still free, and the newer blocks, do not exceed the size.
pub Tiles-le :
    (m : CircularMemory) (newer : ℕ) (bs : List Block) → Tiles m newer bs → m.free + newer ≤ m.size
Tiles-le m newer [] t = omega arith
Tiles-le m newer (b ∷ bs) t = omega (arith, Tiles-le m (newer + b.used) bs t.2)

-- The bytes of a total that is noted at an offset.
abbrev pub HeaderKept : CircularMemory → Memory → Block → Type 0
HeaderKept m memory b =
    (x : ℕ) → m.begin + b.header ≤ x → x < m.begin + b.header + size_bytes → memory x ≡ m.memory x

-- Of the memory, only the totals matter.
pub Tiles-memory :
    (m : CircularMemory) (memory : Memory) (newer : ℕ) (bs : List Block)
    → All (HeaderKept m memory) bs
    → Tiles m newer bs
    → Tiles (record m { memory = memory }) newer bs
Tiles-memory m memory newer [] kept t = t
Tiles-memory m memory newer (b ∷ bs) (k, kept) (l, e, t) = (
  l,
  load-eq size_bytes memory m.memory (m.begin + b.header) k ∙ e,
  Tiles-memory m memory (newer + b.used) bs kept t,
)

-- The blocks stay where they are when the tail moves on.
Tiles-advanced :
    (m : CircularMemory) (total newer : ℕ) (bs : List Block)
    → m.tail < m.size
    → total ≤ m.free
    → Tiles m newer bs
    → Tiles
        (record m { free = m.free - total; tail = advance m.size m.tail total })
        (newer + total)
        bs
Tiles-advanced m total newer [] low fits t = omega arith
Tiles-advanced m total newer (b ∷ bs) low fits (l, e, t) =
    let left = Tiles-le m (newer + b.used) bs t in
    (
      Lies-advance m.size m.tail total newer b l low (omega arith),
      e,
      rw (let r : newer + total + b.used ≡ newer + b.used + total = omega arith in r)
          (Tiles-advanced m total (newer + b.used) bs low fits t),
    )

-- Where a total and a block of `n` bytes behind it have room in the free bytes, of which a total of
-- `total` bytes from the tail on then is taken.
pub record Room (m : CircularMemory) (header total n : ℕ) : Type 0 where
  pub side : (m.tail ≤ header) ⊎ (header + size_bytes + n ≤ m.tail)
  pub inside : header + size_bytes + n ≤ m.size
  pub before : ahead m.size m.tail header + size_bytes + n ≤ total

module _ (m : CircularMemory) (header total n : ℕ) (r : Room m header total n) where
  -- A total that is noted there leaves the others.
  free-HeaderKept :
      (newer : ℕ) (bs : List Block)
      → m.tail < m.size
      → total ≤ m.free
      → Tiles m newer bs
      → All (HeaderKept m (store size_bytes m.memory (m.begin + header) total)) bs
  free-HeaderKept newer [] low fits t = tt
  free-HeaderKept newer (b ∷ bs) low fits (l, e, t) =
      let left = Tiles-le m (newer + b.used) bs t in
      let apart : (b.header + size_bytes ≤ header) ⊎ (header + size_bytes ≤ b.header) =
        ground (arith, r.side, r.inside, r.before) in
      (
        λ x lo hi.
            store-other size_bytes m.memory (m.begin + header) total x
              (elim apart [ inl q ↦ inl (omega arith) | inr q ↦ inr (omega arith) ]),
        free-HeaderKept (newer + b.used) bs low fits t,
      )

  -- The state with the total noted, in which nothing has been taken yet.
  pub stored-IsValid :
      (bs : List Block)
      → IsValid m bs
      → total ≤ m.free
      → IsValid (record m { memory = store size_bytes m.memory (m.begin + header) total }) bs
  stored-IsValid bs v fits = record {
    small = v.small;
    tail_in = v.tail_in;
    tiles = Tiles-memory m _ 0 bs (free-HeaderKept 0 bs v.tail_in fits v.tiles) v.tiles;
  }

  -- With the total in place, the block is valid when it is taken.
  pub advanced-IsValid :
      (bs : List Block)
      → IsValid m bs
      → total ≤ m.free
      → load size_bytes m.memory (m.begin + header) ≡ total
      → IsValid
          (record m { free = m.free - total; tail = advance m.size m.tail total })
          (record { header = header; len = n; used = total } ∷ bs)
  advanced-IsValid bs v fits e =
      let free-le = Tiles-le m 0 bs v.tiles in
      let side = r.side in
      let before = r.before in
      let inside = r.inside in
      record {
        small = v.small;
        tail_in = ground arith;
        tiles = (
          record {
            in_buffer = inside;
            unbroken = ground arith;
            from_start = ground arith;
            to_end = ground arith;
          },
          e,
          Tiles-advanced m total 0 bs v.tail_in fits v.tiles,
        );
      }

-- The state with a total of `total` bytes noted at an offset and the tail moved over them.
abbrev pub noted : CircularMemory → ℕ → ℕ → CircularMemory
noted m header total = record m {
  memory = store size_bytes m.memory (m.begin + header) total;
  free = m.free - total;
  tail = advance m.size m.tail total;
}

-- With the new block in front, the state is valid.
pub noted-IsValid :
    (m : CircularMemory) (header total n : ℕ) (bs : List Block)
    → Room m header total n
    → IsValid m bs
    → total ≤ m.free
    → IsValid (noted m header total) (record { header = header; len = n; used = total } ∷ bs)
noted-IsValid m header total n bs r v fits =
    let le = Tiles-le m 0 bs v.tiles in
    advanced-IsValid (record m { memory = store size_bytes m.memory (m.begin + header) total })
      header total n (record { side = r.side; inside = r.inside; before = r.before }) bs
      (stored-IsValid m header total n r bs v fits) fits
      (load-store size_bytes m.memory (m.begin + header) total (omega (arith, v.small)))
