-- ===== src/CircularMemory/Release.antt =====
-- `release`, `empty` and the bytes of the blocks in utils/circular_memory.hpp.
use native.Mathlib.Nat.{mod-lt}
use fb_utils.Prelude.{
  ok, false, not, ◌&&◌, leb, ◌==◌, ℕ, ◌+◌, ◌-◌, ◌^◌, ◌≤◌, ◌<◌, ◌≡◌, ◌↔◌, ◌⊎◌, refl, List, [], ◌∷◌,
  ◌++◌, some, true, arith, All,
}
use fb_utils.CircularMemory.Bytes.{load}
use fb_utils.CircularMemory.Blocks.{Block, payload, Lies, Tiles, IsValid}
use fb_utils.CircularMemory.Note.{Tiles-le}
use fb_utils.CircularMemory.{
  CircularMemory, size_bytes, add_size, split_space, pad_n_align, align, aligned_in, is_doubled,
  asserted, commit, allocate, used_memory, release, empty,
}

-- The newest blocks are left when the oldest is given back.
pub Tiles-without :
    (m : CircularMemory) (newer : ℕ) (bs : List Block) (b : Block)
    → Tiles m newer (bs ++ (b ∷ []))
    → Tiles (record m { free = m.free + b.used }) newer bs
      × (load size_bytes m.memory (m.begin + b.header) ≡ b.used)
      × (m.free + b.used ≤ m.size)
Tiles-without m newer [] b (l, e, t) = (omega arith, e, omega arith)
Tiles-without m newer (c ∷ bs) b (l, e, t) =
    let (t', e', le) = Tiles-without m (newer + c.used) bs b t in ((l, e, t'), e', le)

module _ (m : CircularMemory) (bs : List Block) (b : Block) (v : IsValid m (bs ++ (b ∷ []))) where
  -- The total that is noted in front of the oldest block.
  pub used_memory_lem : used_memory m (m.begin + payload b) ≡ b.used
  unfolding used_memory
  used_memory_lem =
      let (t, e, le) = Tiles-without m 0 bs b v.tiles in
      rw (let r : m.begin + (b.header + 8) - 8 ≡ m.begin + b.header = omega arith in r) e

  -- In a valid state of less than 2^63 bytes, to give the oldest block back ends without a failed
  -- assertion, frees its total and keeps the invariant for the other blocks.
  pub release-IsValid :
      (m' : CircularMemory) × (release m (m.begin + payload b) ≡ ok m')
      × IsValid m' bs
      × (m'.free ≡ m.free + b.used)
  unfolding release
  release-IsValid =
      let (t, e, le) = Tiles-without m 0 bs b v.tiles in
      let sum : add_size m.free b.used ≡ m.free + b.used = omega (arith, v.small) in
      let not_null : (m.begin + payload b == 0) ≡ false = ground arith in
      (
        record m { free = m.free + b.used },
        rw (not_null, used_memory_lem, sum) refl,
        record { small = v.small; tail_in = v.tail_in; tiles = t },
        refl,
      )

-- No byte of one block is a byte of the other.
abbrev pub Apart : Block → Block → Type 0
Apart b c = (payload b + b.len ≤ c.header) ⊎ (payload c + c.len ≤ b.header)

abbrev pub AllApart : List Block → Type 0
AllApart [] = Unit
AllApart (b ∷ bs) = All (Apart b) bs × AllApart bs

Tiles-All-Apart :
    (m : CircularMemory) (newer older : ℕ) (b : Block) (bs : List Block)
    → Lies m.size m.tail newer b
    → newer + b.used ≤ older
    → Tiles m older bs
    → All (Apart b) bs
Tiles-All-Apart m newer older b [] l h t = tt
Tiles-All-Apart m newer older b (c ∷ bs) l h (k, e, t) =
    (ground arith, Tiles-All-Apart m newer (older + c.used) b bs l (omega arith) t)

Tiles-AllApart : (m : CircularMemory) (newer : ℕ) (bs : List Block) → Tiles m newer bs → AllApart bs
Tiles-AllApart m newer [] t = tt
Tiles-AllApart m newer (b ∷ bs) (l, e, t) = (
  Tiles-All-Apart m newer (newer + b.used) b bs l (omega arith) t,
  Tiles-AllApart m (newer + b.used) bs t,
)

abbrev pub InBuffer : CircularMemory → Block → Type 0
InBuffer m b = payload b + b.len ≤ m.size

Tiles-InBuffer :
    (m : CircularMemory) (newer : ℕ) (bs : List Block) → Tiles m newer bs → All (InBuffer m) bs
Tiles-InBuffer m newer [] t = tt
Tiles-InBuffer m newer (b ∷ bs) (l, e, t) = (l.in_buffer, Tiles-InBuffer m (newer + b.used) bs t)

-- The blocks of a valid state, with the eight bytes in front of each, lie in the buffer and have no
-- byte in common.
pub IsValid-AllApart :
    (m : CircularMemory) (bs : List Block) → IsValid m bs → AllApart bs × All (InBuffer m) bs
IsValid-AllApart m bs v = (Tiles-AllApart m 0 bs v.tiles, Tiles-InBuffer m 0 bs v.tiles)

-- `empty` holds exactly when no block is taken.
pub empty_iff : (m : CircularMemory) (bs : List Block) → IsValid m bs → (empty m ≡ true) ↔ (bs ≡ [])
unfolding empty
empty_iff m [] v = (λ h. refl, λ h. let full = v.tiles in ground arith)
empty_iff m (b ∷ bs) v =
    let (l, e, t) = v.tiles in
    let le = Tiles-le m (0 + b.used) bs t in
    (λ h. absurd (ground (arith, l.from_start, l.to_end)), λ h. cc)

pad_overflow : (p space : ℕ) → space < 8 → pad_n_align 1 (2 ^ 64 - 8) p space ≡ ok (some (p + 8))
unfolding pad_n_align align aligned_in is_doubled
pad_overflow p space h = ground arith

-- The sum of the test in the lambda wraps for a request of 2 ^ 64 - 8 bytes. In a state in which the
-- assertions hold, with a buffer that is not empty, such a request is served where fewer than eight
-- bytes are free at the tail.
pub allocate_overflow :
    (m : CircularMemory)
    → asserted m (2 ^ 64 - 8) ≡ true
    → 0 < m.size
    → (split_space m).0 < 8
    → (m' : CircularMemory) × (allocate m (2 ^ 64 - 8) 1 ≡ ok (some (m.begin + m.tail + 8), m'))
unfolding allocate commit
allocate_overflow m holds some_bytes h =
    let res = m.begin + m.tail + 8 in
    let m' = commit m (m.begin + m.tail) res (2 ^ 64 - 8) in
    let low =
      mod-lt (add_size m.tail (add_size (2 ^ 64 - 8) (res - (m.begin + m.tail)))) some_bytes in
    let e : (not (m'.size == 0) && leb m'.tail m'.size) ≡ true = ground arith in
    (m', rw (allocate, holds, pad_overflow (m.begin + m.tail) (split_space m).0 h, e) refl)
