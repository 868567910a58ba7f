-- ===== src/CircularMemory.antt =====
-- utils/circular_memory.hpp, an allocator over a circular buffer: the blocks are taken at `tail_`
-- and given back in the order in which they were taken. `Bytes` is the memory, `Blocks` the
-- invariant, and its users the theorems.
pub mod Bytes
pub mod Blocks
mod Note
mod Align
pub mod Allocate
pub mod Release
pub mod Threads
mod Tests
use fb_utils.Prelude.{
  ℕ, zero, suc, ◌+◌, ◌-◌, ◌*◌, ◌/◌, ◌%◌, ◌^◌, Bool, false, not, ◌&&◌, ◌||◌, Option, none, some, ltb,
  leb, ◌==◌, if◌then◌else◌, Result, ok, fault, ◌>>=◌, Never,
}
use fb_utils.CircularMemory.Bytes.{Memory, load, store}

-- `size_type` is std::size_t, of eight bytes. Its operations wrap.
abbrev pub size_bytes : ℕ
size_bytes = 8

abbrev pub add_size : ℕ → ℕ → ℕ
add_size a b = (a + b) % 2 ^ 64

abbrev pub sub_size : ℕ → ℕ → ℕ
sub_size a b = (a + 2 ^ 64 - b) % 2 ^ 64

-- What a call comes to: it throws nothing, and `fault` is an assertion that fails or a call that is
-- not defined.
abbrev pub Checked : Type 0 → Type 0
Checked A = Result {0, 0} Never A

-- `begin_`, `tail_`, `size_`, `free_.counter`, and the memory by addresses.
pub record CircularMemory : Type 0 where
  pub begin : ℕ
  pub tail : ℕ
  pub size : ℕ
  pub free : ℕ
  pub memory : Memory

-- The constructor.
abbrev pub circular_memory : Memory → ℕ → ℕ → CircularMemory
circular_memory memory buffer size = record {
  begin = buffer;
  tail = 0;
  size = size;
  free = size;
  memory = memory;
}

unfoldable pub empty : CircularMemory → Bool
empty m = m.free == m.size

-- The bytes that are free from `tail_` on, and those from the start of the buffer on.
unfoldable pub split_space : CircularMemory → ℕ × ℕ
split_space m =
    let end = add_size m.tail m.free in
    if ltb m.size end
    then (sub_size m.size m.tail, sub_size end m.size)
    else (sub_size end m.tail, 0)

-- The first multiple of the alignment from an address on.
abbrev pub align_up : ℕ → ℕ → ℕ
align_up alignment address = (address + alignment - 1) / alignment * alignment

-- The aligned address, if `size` bytes from it on lie in the space.
unfoldable pub aligned_in : ℕ → ℕ → ℕ → ℕ → Option ℕ
aligned_in alignment size address space =
    let aligned = align_up alignment address in
    if ltb space size
    then none
    else if ltb (space - size) (aligned - address)
    then none
    else some aligned

-- Whether a number is `power` or what comes of it by doubling it up to `fuel` times.
unfoldable pub is_doubled : ℕ → ℕ → ℕ → Bool
is_doubled zero power n = power == n
is_doubled (suc fuel) power n = power == n || is_doubled fuel (2 * power) n

-- The powers of two of 64 bits.
abbrev pub is_power_of_two : ℕ → Bool
is_power_of_two n = is_doubled 63 1 n

-- std::align, which is defined for these alignments.
unfoldable pub align : ℕ → ℕ → ℕ → ℕ → Checked (Option ℕ)
unfolding aligned_in is_doubled
align alignment size address space =
    if is_power_of_two alignment then ok (aligned_in alignment size address space) else fault

-- The lambda of `allocate`.
unfoldable pub pad_n_align : ℕ → ℕ → ℕ → ℕ → Checked (Option ℕ)
unfolding align
pad_n_align alignment size pointer space =
    if ltb space (add_size size_bytes size)
    then ok none
    else align alignment size (pointer + size_bytes) (sub_size space size_bytes)

-- The end of `allocate`: the total goes in front of the block, and the counters move.
unfoldable pub commit : CircularMemory → ℕ → ℕ → ℕ → CircularMemory
commit m pointer res size =
    let total = add_size size (res - pointer) in
    record m {
      memory = store size_bytes m.memory (res - size_bytes) total;
      free = sub_size m.free total;
      tail = add_size m.tail total % m.size;
    }

-- The address is returned, where the remainder by `size_` is defined and the last assertion holds.
abbrev pub finished : ℕ → CircularMemory → Checked (Option ℕ × CircularMemory)
finished res m = if not (m.size == 0) && leb m.tail m.size then ok (some res, m) else fault

-- With what `pad_n_align` gives from the start of the buffer on.
unfoldable pub allocate_front : CircularMemory → ℕ → Option ℕ → Checked (Option ℕ × CircularMemory)
allocate_front m size none = ok (none, m)
allocate_front m size (some res) =
    finished res (commit m m.begin res (add_size size (split_space m).0))

-- With what it gives at `tail_`.
unfoldable pub allocate_tail :
    CircularMemory → ℕ → ℕ → Option ℕ → Checked (Option ℕ × CircularMemory)
unfolding allocate_front
allocate_tail m size alignment none =
    pad_n_align alignment size m.begin (split_space m).1 >>= (λ res. allocate_front m size res)
allocate_tail m size alignment (some res) = finished res (commit m (m.begin + m.tail) res size)

-- The first three assertions.
unfoldable pub asserted : CircularMemory → ℕ → Bool
unfolding split_space
asserted m size =
    not (size == 0)
    && leb m.tail m.size
    && leb (add_size (split_space m).0 (split_space m).1) m.free

unfoldable pub allocate : CircularMemory → ℕ → ℕ → Checked (Option ℕ × CircularMemory)
unfolding allocate_tail asserted
allocate m size alignment =
    if asserted m size
    then pad_n_align alignment size (m.begin + m.tail) (split_space m).0
      >>= (λ res. allocate_tail m size alignment res)
    else fault

unfoldable pub used_memory : CircularMemory → ℕ → ℕ
used_memory m pointer = load size_bytes m.memory (pointer - size_bytes)

-- A null pointer fails the assertion.
unfoldable pub release : CircularMemory → ℕ → Checked CircularMemory
release m mem =
    if mem == 0 then fault else ok (record m { free = add_size m.free (used_memory m mem) })
