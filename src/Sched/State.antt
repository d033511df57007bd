-- ===== src/Sched/State.antt =====
-- The state of the scheduler: `struct scheduler_info` of kernel/scheduler/scheduler.h and the fields
-- of `struct thread` that the scheduler reads and writes.
-- A `struct thread*` is a number, and the threads are a store indexed by it. An int of which the code
-- uses -1 as "none" is an option; an array is a function of the index.
use racoon.Base.{ℕ, Option, none, ◌==◌, Outcome, ok, ◌>>◌, assert}

abbrev pub Ptr : Type 0
Ptr = ℕ

abbrev pub thread_running : ℕ
thread_running = 1

abbrev pub thread_dormant : ℕ
thread_dormant = 3

pub record Thread : Type 0 where
  pub tid : ℕ
  pub state : ℕ
  pub duration : ℕ
  pub cpu : Option ℕ
  pub cpu_affinity : Option ℕ
  pub fast_queued : ℕ

abbrev pub Threads : Type 0
Threads = Ptr → Thread

pub record PausedSchedule : Type 0 where
  pub tr : Ptr
  pub state : ℕ
  pub request : ℕ
  pub start : ℕ

pub record SchedulerInfo : Type 0 where
  pub cpu_id : ℕ
  pub current_thread : Option Ptr
  pub requesting_state : Option ℕ
  pub requesting_thread : Option Ptr
  pub sched_queue : ℕ → Ptr
  pub pause_queue : ℕ → PausedSchedule
  pub sched_count : ℕ
  pub pause_count : ℕ
  pub sched_size : ℕ
  pub pause_size : ℕ
  pub idle : ℕ
  pub nested_lock : ℕ
  pub position : ℕ
  pub fast_queue : ℕ → Ptr
  pub fast_start : ℕ
  pub fast_stop : ℕ

-- `INITIAL_SCHED_SIZE` and `MAX_FAST`
abbrev pub initial_sched_size : ℕ
initial_sched_size = 1024

abbrev pub max_fast : ℕ
max_fast = 32

-- `kmalloc` is taken to succeed, as the code does. Its memory holds any entries, whose threads are set
-- to NULL; `fast` is what the ring held before.
unfoldable pub load_scheduler : ℕ → (ℕ → PausedSchedule) → (ℕ → Ptr) → SchedulerInfo
load_scheduler cpu_id pauses fast = record {
  cpu_id = cpu_id;
  current_thread = none;
  requesting_state = none;
  requesting_thread = none;
  sched_queue = λ _. 0;
  pause_queue = λ i. record (pauses i) { tr = 0 };
  sched_count = 0;
  pause_count = 0;
  sched_size = initial_sched_size;
  pause_size = initial_sched_size;
  idle = 0;
  nested_lock = 0;
  position = 0;
  fast_queue = fast;
  fast_start = 0;
  fast_stop = 0;
}

-- The lock of one scheduler, seen from the CPU that takes it: a lock that is held already is never
-- obtained, so the call does not return. The range check of `cpu_id` stands with the
-- schedulers of all CPUs; the interrupt flags and the wait for the other CPU to stop are left out.
unfoldable pub sched_lock : SchedulerInfo → Outcome SchedulerInfo
sched_lock si = do assert (si.nested_lock == 0); ok (record si { idle = 0; nested_lock = 1 })

unfoldable pub sched_unlock : SchedulerInfo → Outcome SchedulerInfo
sched_unlock si = do assert (si.nested_lock == 1); ok (record si { nested_lock = 0 })
