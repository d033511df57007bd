-- ===== src/Sched/RunQueue.antt =====
-- The run queue of kernel/scheduler/scheduler.c: adding a thread, taking one out, choosing the next,
-- and the state change that a running thread asked for.
pub mod Dequeue
pub mod Invariant
pub mod Request
pub mod RoundRobin
use racoon.Base.{
  ℕ, ◌+◌, ◌-◌, ◌%◌, Bool, true, false, not, Option, none, some, ltb, ◌==◌, if◌then◌else◌, Outcome,
  ok, halt, ◌>>=◌, ◌>>◌, assert, sub32, update, first_index, shift_down, Status, success, failure,
}
use racoon.Sched.State.{Ptr, Thread, Threads, SchedulerInfo, sched_lock, sched_unlock}

abbrev pub is_thread : Option Ptr → Ptr → Bool
is_thread none tr = false
is_thread (some t) tr = t == tr

-- The body of `sub_queue` under the lock.
abbrev pub enqueued : SchedulerInfo → Ptr → SchedulerInfo
enqueued si tr = record si {
  sched_queue = update si.sched_queue si.sched_count tr;
  sched_count = si.sched_count + 1;
}

pub sub_queue : SchedulerInfo → Ptr → Outcome (Status × SchedulerInfo)
sub_queue si tr = do
  s ← sched_lock si
  let full = s.sched_count == s.sched_size
  t ← sched_unlock (if full then s else enqueued s tr)
  ok (if full then failure else success, t)

-- The search for a thread in the run queue.
pub position_of : SchedulerInfo → Ptr → ℕ
position_of si tr = first_index (λ i. si.sched_queue i == tr) si.sched_count 0

-- `(position-1) % sched_count`, on unsigned numbers.
pub step_back : ℕ → ℕ → ℕ
step_back position count = if count == 0 then 0 else sub32 position 1 % count

-- Close the gap at `pos` and keep track, as `sub_dequeue` and `remove_last` do.
abbrev pub closed : SchedulerInfo → ℕ → SchedulerInfo
closed si pos = record si {
  sched_queue = shift_down 1 (si.sched_count - 1 - pos) pos si.sched_queue;
  sched_count = si.sched_count - 1;
  position = step_back si.position (si.sched_count - 1);
}

-- `current` is the thread that runs on the CPU of the caller.
pub sub_dequeue : Option Ptr → SchedulerInfo → Ptr → Outcome SchedulerInfo
sub_dequeue current si tr = do
  assert (not (is_thread current tr))
  s ← sched_lock si
  let pos = position_of s tr
  assert (not (pos == s.sched_count))
  sched_unlock (closed s pos)

abbrev pub cleared : SchedulerInfo → SchedulerInfo
cleared si = record si { requesting_thread = none; requesting_state = none }

-- The two assertions that end `remove_last` fail where only one half of a request is there.
pub serve_request :
    SchedulerInfo → Threads → Option Ptr → Option ℕ → Outcome (SchedulerInfo × Threads)
serve_request si threads (some tr) (some state) =
    let pos = position_of si tr in
    let changed = record (threads tr) { state = state; cpu = none } in
    if pos == si.sched_count
    then ok (cleared si, threads)
    else ok (cleared (closed si pos), update threads tr changed)
serve_request si threads (some tr) none = halt
serve_request si threads none (some state) = halt
serve_request si threads none none = ok (si, threads)

-- The thread's requested state change, made by the scheduler once the thread has stopped.
pub remove_last : SchedulerInfo → Threads → Outcome (SchedulerInfo × Threads)
unfolding serve_request
remove_last si threads = serve_request si threads si.requesting_thread si.requesting_state

-- The choice that `scheduler` makes when the run queue is not empty.
pub pick : SchedulerInfo → Ptr × SchedulerInfo
pick si = (si.sched_queue si.position, record si { position = (si.position + 1) % si.sched_count })
