-- ===== src/Win/Thread.antt =====
-- utils/win/thread.cpp: priority and processors of a thread. The calls of Windows are parameters:
-- each gives success, or the code that `GetLastError` then has.
use fb_utils.Prelude.{
  ℕ, ◌%◌, ◌^◌, take, Bool, List, [], Option, none, some, ◌==◌, if◌then◌else◌, Result, ok, err,
  fault,
}

pub data Priority : Type 0 where
  low : Priority
  normal : Priority
  highest : Priority

pub data PriorityClass : Type 0 where
  normal_priority_class : PriorityClass
  realtime_priority_class : PriorityClass

-- The values of the thread's priority that the source names, and any other.
pub data ThreadPriority : Type 0 where
  thread_priority_below_normal : ThreadPriority
  thread_priority_normal : ThreadPriority
  thread_priority_time_critical : ThreadPriority
  thread_priority : ℕ → ThreadPriority

-- What `GetThreadSelectedCpuSets` answers for a buffer: whether it succeeds, the last error, the
-- number that it needs or has written, and the identifiers in the buffer.
pub record Selected : Type 0 where
  pub succeeds : Bool
  pub last_error : ℕ
  pub count : ℕ
  pub ids : List ℕ

pub record System : Type 0 where
  pub set_thread_ideal_processor : ℕ → Option ℕ
  pub set_thread_affinity_mask : ℕ → Option ℕ
  pub set_thread_selected_cpu_sets : List ℕ → Option ℕ
  pub set_numeric_thread_priority : ThreadPriority → Option ℕ
  pub set_priority_class : PriorityClass → Option ℕ
  pub get_thread_selected_cpu_sets : ℕ → Selected

abbrev pub error_insufficient_buffer : ℕ
error_insufficient_buffer = 122

unfoldable pub pin_thread_to_core : System → ℕ → Option ℕ
pin_thread_to_core system core_id = system.set_thread_ideal_processor core_id

unfoldable pub set_thread_afinity : System → ℕ → Option ℕ
set_thread_afinity system afinity_mask = system.set_thread_affinity_mask afinity_mask

-- The size is cast to 32 bits.
unfoldable pub set_selected_cpu_sets : System → List ℕ → ℕ → Option ℕ
set_selected_cpu_sets system cpu_ids size =
    system.set_thread_selected_cpu_sets (take (size % 2 ^ 32) cpu_ids)

-- The same in the namespace v1x.
unfoldable pub set_thread_cpu_set : System → List ℕ → ℕ → Option ℕ
set_thread_cpu_set system cpu_ids size =
    system.set_thread_selected_cpu_sets (take (size % 2 ^ 32) cpu_ids)

abbrev pub classes : Priority → PriorityClass × ThreadPriority
classes low = (normal_priority_class, thread_priority_below_normal)
classes highest = (realtime_priority_class, thread_priority_time_critical)
classes normal = (normal_priority_class, thread_priority_normal)

-- The priority of the thread is set where that of the process was.
unfoldable pub set_thread_priority : System → Priority → Option ℕ
set_thread_priority system prio =
    let (priority_class, priority) = classes prio in
    elim (system.set_priority_class priority_class) [
      | some error ↦ some error
      | none ↦ system.set_numeric_thread_priority priority
    ]

-- The error code, 0 for none, the number and the identifiers.
unfoldable pub read_thread_cpu_set : System → ℕ → ℕ × ℕ × List ℕ
read_thread_cpu_set system size =
    let answer = system.get_thread_selected_cpu_sets size in
    (if answer.succeeds then 0 else answer.last_error, answer.count, answer.ids)

-- The second call, with a buffer of `n`, which is what is returned, whatever number it has.
unfoldable pub read_again : System → ℕ → Result ℕ (List ℕ)
read_again system n =
    let (error, count, ids) = read_thread_cpu_set system n in
    if error == 0 then ok ids else err error

unfoldable pub get_thread_cpu_set : System → Result ℕ (List ℕ)
get_thread_cpu_set system =
    let (error, n, ids) = read_thread_cpu_set system 0 in
    if error == 0
    then (if n == 0 then ok [] else fault)
    else if error == error_insufficient_buffer
    then read_again system n
    else err error
