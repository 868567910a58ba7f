-- ===== src/Posix/Thread.antt =====
-- utils/posix/thread.cpp: priority and processors of a thread. The calls of pthread and sched and
-- the macros on `cpu_set_t` are parameters; an error number is 0 for success.
use fb_utils.Prelude.{
  ℕ, zero, suc, ◌+◌, ◌/◌, Bool, List, [], ◌∷◌, Option, none, some, ◌==◌, if◌then◌else◌, Result, ok,
  err, fault, ◌>>=◌, get_elem?,
}

pub data Priority : Type 0 where
  low : Priority
  normal : Priority
  highest : Priority

pub data Policy : Type 0 where
  sched_other : Policy
  sched_rr : Policy

-- `sched_get_priority_min`, `sched_get_priority_max`, which are not negative for the two
-- policies, and `pthread_setschedparam` for the thread.
pub record Scheduler : Type 0 where
  pub priority_min : Policy → ℕ
  pub priority_max : Policy → ℕ
  pub setschedparam : Policy → ℕ → ℕ
  pub setschedprio : ℕ → ℕ

-- The policy and the priority that the switch leaves.
unfoldable pub parameters : Scheduler → Priority → Policy × ℕ
parameters s low = (sched_other, s.priority_min sched_other)
parameters s highest = (sched_rr, s.priority_max sched_rr)
parameters s normal = (sched_other, (s.priority_min sched_other + s.priority_max sched_other) / 2)

-- An error code is `none` for success.
abbrev pub error_code : ℕ → Option ℕ
error_code error = if error == 0 then none else some error

unfoldable pub set_thread_priority : Scheduler → Priority → Option ℕ
unfolding parameters
set_thread_priority s prio =
    let (policy, sched_priority) = parameters s prio in
    error_code (s.setschedparam policy sched_priority)

unfoldable pub set_numeric_priority : Scheduler → ℕ → Option ℕ
set_numeric_priority s priority = error_code (s.setschedprio priority)

-- The macros on processor sets: `CPU_ALLOC` (or its `errno`), `CPU_ALLOC_SIZE`, `CPU_ZERO_S`,
-- `CPU_SET_S` and `CPU_ISSET_S`, their arguments in the order of the macros, and the calls on the
-- thread's affinity.
pub record Affinity (Set : Type 0) : Type 0 where
  pub nprocs : ℕ
  pub alloc : ℕ → Result ℕ Set
  pub alloc_size : ℕ → ℕ
  pub zero_s : ℕ → Set → Set
  pub set_s : ℕ → ℕ → Set → Result ℕ Set
  pub isset_s : ℕ → ℕ → Set → Result ℕ Bool
  pub setaffinity : ℕ → Set → ℕ
  pub getaffinity : ℕ → Set → Result ℕ Set

module _ {Set : Type 0} (a : Affinity Set) where
  -- `CPU_ZERO` and `CPU_SET` on a `cpu_set_t` that is not allocated, of which the size is given.
  unfoldable pub pin_thread_to_core : ℕ → Set → ℕ → Result {0, 0} ℕ Unit
  pin_thread_to_core size cpuset core_id = do
    set ← a.set_s core_id size (a.zero_s size cpuset)
    let error = a.setaffinity size set
    if error == 0 then ok tt else err error

  -- What it reads is not kept, and `core_id` is not used.
  unfoldable pub get_thread_afinity : ℕ → Set → ℕ → Result {0, 0} ℕ Unit
  get_thread_afinity size cpuset core_id = do
    current ← a.getaffinity size (a.zero_s size cpuset)
    ok tt

  -- `while (size-- != 0)`, the identifiers from the last to the first.
  unfoldable pub set_all : List ℕ → ℕ → Set → Result ℕ Set
  set_all cpu_ids zero set = ok set
  set_all cpu_ids (suc size) set = elim (get_elem? cpu_ids size) [
    | none ↦ fault
    | some cpu ↦ do next ← a.set_s cpu a.nprocs set; set_all cpu_ids size next
  ]

  -- `assert(nprocs != 0)` and `CPU_ALLOC`.
  unfoldable pub alloc_set : Result ℕ Set
  alloc_set = if a.nprocs == 0 then fault else a.alloc a.nprocs

  unfoldable pub set_thread_cpu_set : List ℕ → ℕ → Result {0, 0} ℕ Unit
  unfolding set_all alloc_set
  set_thread_cpu_set cpu_ids size = do
    set ← alloc_set
    let cpu_set_sz = a.alloc_size a.nprocs
    full ← set_all cpu_ids size (a.zero_s cpu_set_sz set)
    let error = a.setaffinity cpu_set_sz full
    if error == 0 then ok tt else err error

  -- The loop over the processors: `left` are still to come after `cpu`.
  unfoldable pub collect : ℕ → ℕ → Set → Result ℕ (List ℕ)
  collect zero cpu set = ok []
  collect (suc left) cpu set = do
    isset ← a.isset_s cpu a.nprocs set
    rest ← collect left (suc cpu) set
    ok (if isset then cpu ∷ rest else rest)

  unfoldable pub get_thread_cpu_set : Result ℕ (List ℕ)
  unfolding collect alloc_set
  get_thread_cpu_set = do
    set ← alloc_set
    let cpu_set_sz = a.alloc_size a.nprocs
    current ← a.getaffinity cpu_set_sz (a.zero_s cpu_set_sz set)
    collect a.nprocs 0 current
