-- ===== src/Sched/FastQueue.antt =====
-- The fast queue of kernel/scheduler/scheduler.c: a ring of `MAX_FAST` threads that run before those
-- of the run queue. The int `fast_queued` is its 32 bits. `fast_queue` and `fast_dequeue` work on the scheduler of CPU `id`.
pub mod Fifo
use racoon.Base.{
  ℕ, ◌+◌, ◌-◌, ◌%◌, Bool, true, false, not, Option, none, some, ltb, ◌==◌, if◌then◌else◌, Outcome,
  ok, halt, ◌>>=◌, ◌>>◌, assert, update, add32, sub32,
}
use racoon.Sched.State.{Ptr, Thread, Threads, SchedulerInfo, max_fast, sched_lock, sched_unlock}

-- The threads after `fast_queue`: the thread belongs to the CPU, and once more to the queue.
abbrev pub fast_marked : Threads → Ptr → ℕ → Threads
fast_marked threads tr id =
    update threads tr
      (record (threads tr) { cpu = some id; fast_queued = add32 (threads tr).fast_queued 1 })

abbrev pub fast_entered : SchedulerInfo → Ptr → SchedulerInfo
fast_entered si tr = record si {
  fast_queue = update si.fast_queue si.fast_stop tr;
  fast_stop = (si.fast_stop + 1) % max_fast;
}

-- `si` is the scheduler of the CPU that the thread prefers, one of `cpu_count`.
pub fast_queue : ℕ → SchedulerInfo → Threads → Ptr → Outcome (SchedulerInfo × Threads)
fast_queue cpu_count si threads tr = elim (threads tr).cpu_affinity [
  | none ↦ halt
  | some id ↦ do
    assert (ltb id cpu_count)
    s ← sched_lock si
    let t = fast_entered s tr
    assert (not (t.fast_stop == t.fast_start))
    u ← sched_unlock t
    ok (u, fast_marked threads tr id)
]

abbrev pub fast_left : Threads → Ptr → Threads
fast_left threads tr =
    let queued = sub32 (threads tr).fast_queued 1 in
    update threads tr (record (threads tr) {
      fast_queued = queued;
      cpu = if queued == 0 then none else (threads tr).cpu;
    })

-- `si` is the scheduler of the CPU `tr->cpu`, and `me` the CPU of the caller.
pub fast_dequeue : ℕ → SchedulerInfo → Threads → Ptr → Outcome (SchedulerInfo × Threads)
fast_dequeue me si threads tr = elim (threads tr).cpu [
  | none ↦ halt
  | some id ↦ do
    s ← sched_lock si
    assert (id == me)
    assert (tr == s.fast_queue s.fast_start)
    u ← sched_unlock (record s { fast_start = (s.fast_start + 1) % max_fast })
    ok (u, fast_left threads tr)
]

-- The next thread of the fast queue, if there is one.
pub get_fast : SchedulerInfo → Option Ptr
get_fast si = if si.fast_start == si.fast_stop then none else some (si.fast_queue si.fast_start)
