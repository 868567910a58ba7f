-- ===== src/CircularMemory/Bytes.antt =====
-- The bytes of the memory, and std::memcpy of a number, its lowest byte first.
use fb_utils.Prelude.{
  ℕ, zero, suc, ◌+◌, ◌*◌, ◌/◌, ◌%◌, ◌^◌, ◌≤◌, ◌<◌, ◌≡◌, ◌⊎◌, refl, ◌==◌, if◌then◌else◌, arith,
}
use native.Mathlib.Nat.{pow-suc}

-- The byte at each address.
abbrev pub Memory : Type 0
Memory = ℕ → ℕ

abbrev pub write : Memory → ℕ → ℕ → Memory
write m a v x = if x == a then v else m x

-- memcpy to the number: `n` bytes from an address on.
unfoldable pub load : ℕ → Memory → ℕ → ℕ
load zero m a = 0
load (suc n) m a = m a + 256 * load n m (suc a)

-- memcpy from the number.
unfoldable pub store : ℕ → Memory → ℕ → ℕ → Memory
store zero m a v = m
store (suc n) m a v = write (store n m (suc a) (v / 256)) a (v % 256)

-- A load sees only its own bytes.
pub load-eq :
    (n : ℕ) (m m' : Memory) (a : ℕ)
    → ((x : ℕ) → a ≤ x → x < a + n → m x ≡ m' x)
    → load n m a ≡ load n m' a
unfolding load
load-eq zero m m' a h = refl
load-eq (suc n) m m' a h = omega (
  arith,
  h a (omega arith) (omega arith),
  load-eq n m m' (suc a) (λ x lo hi. h x (omega arith) (omega arith)),
)

-- A store changes only its own bytes.
pub store-other : (n : ℕ) (m : Memory) (a v x : ℕ) → (x < a) ⊎ (a + n ≤ x) → store n m a v x ≡ m x
unfolding store
store-other zero m a v x h = refl
store-other (suc n) m a v x h = ground (arith, store-other n m (suc a) (v / 256) x (omega arith))

-- What is stored is read back, if it fits.
pub load-store : (n : ℕ) (m : Memory) (a v : ℕ) → v < 256 ^ n → load n (store n m a v) a ≡ v
unfolding load store
load-store zero m a v h = omega arith
load-store (suc n) m a v h =
    let rest = store n m (suc a) (v / 256) in
    let here : write rest a (v % 256) a ≡ v % 256 = ground arith in
    let fits : v / 256 < 256 ^ n = omega (arith, pow-suc 256 n) in
    omega (
      arith,
      here,
      load-eq n (write rest a (v % 256)) rest (suc a) (λ x lo hi. ground arith),
      load-store n m (suc a) (v / 256) fits,
    )
