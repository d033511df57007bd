-- ===== src/Sched/Threads.antt =====
-- The schedulers of all CPUs: queue and dequeue of kernel/scheduler/scheduler.c, and
-- set_thread_state of kernel/processes/threads.c. The functions run on CPU `me`.
pub mod States
mod Tests
use racoon.Base.{
  ℕ, ◌+◌, ◌-◌, ◌%◌, Bool, true, false, not, Option, none, some, ltb, ◌==◌, ◌&&◌, if◌then◌else◌,
  Outcome, ok, halt, fault, ◌>>=◌, ◌>>◌, assert, update, Status, success, failure,
}
use racoon.Sched.State.{
  Ptr, Thread, Threads, SchedulerInfo, thread_running, thread_dormant, sched_lock, sched_unlock,
}
use racoon.Sched.RunQueue.{is_thread, sub_queue, sub_dequeue}
use racoon.Sched.Timers.{restart_in}

pub record Machine : Type 0 where
  pub cpu_count : ℕ
  pub sched : ℕ → SchedulerInfo
  pub threads : Threads

-- The scheduler of a CPU, with the check of its number with which `sched_lock` begins.
pub cpu_sched : Machine → ℕ → Outcome SchedulerInfo
cpu_sched m id = do assert (ltb id m.cpu_count); ok (m.sched id)

-- The CPU for a thread: its affinity, or `(tid - 1) % cpu_count` on ints. A `tid` of 0 gives the
-- index -1, outside the array, unless there is one CPU.
pub home : Machine → Ptr → Outcome ℕ
home m tr = elim (m.threads tr).cpu_affinity [
  | some id ↦ ok id
  | none ↦
      if m.cpu_count == 0
      then fault
      else if (m.threads tr).tid == 0
      then (if m.cpu_count == 1 then ok 0 else fault)
      else ok (((m.threads tr).tid - 1) % m.cpu_count)
]

abbrev pub with_cpu : Machine → Ptr → Option ℕ → Machine
with_cpu m tr cpu = record m { threads = update m.threads tr (record (m.threads tr) { cpu = cpu }) }

abbrev pub with_sched : Machine → ℕ → SchedulerInfo → Machine
with_sched m id si = record m { sched = update m.sched id si }

abbrev pub is_free : Option ℕ → Bool
is_free none = true
is_free (some id) = false

pub queue : Machine → Ptr → Outcome (Status × Machine)
queue m tr = do
  id ← home m tr
  assert (is_free (m.threads tr).cpu)
  before ← cpu_sched m id
  (rc, si) ← sub_queue before tr
  ok (rc, with_sched (with_cpu m tr (some id)) id si)

pub dequeue : ℕ → Machine → Ptr → Outcome Machine
dequeue me m tr = elim (m.threads tr).cpu [
  | none ↦ halt
  | some id ↦ do
    before ← cpu_sched m id
    si ← sub_dequeue (m.sched me).current_thread before tr
    ok (with_cpu (with_sched m id si) tr none)
]

pub restart : Machine → Ptr → Outcome Machine
restart m tr = do
  id ← home m tr
  before ← cpu_sched m id
  s ← sched_lock before
  t ← restart_in s tr
  si ← sched_unlock t
  ok (with_sched m id si)

-- A thread asks for its own change of state.
abbrev pub requested : Machine → ℕ → Ptr → ℕ → Machine
requested m me tr state =
    with_sched m me
      (record (m.sched me) { requesting_thread = some tr; requesting_state = some state })

abbrev pub with_state : Machine → Ptr → ℕ → Machine
with_state m tr state = record m {
  threads = update m.threads tr (record (m.threads tr) { state = state });
}

-- The end of `set_thread_state`: out of the run queue, the new state, into the run queue.
pub change_state : ℕ → Machine → Ptr → ℕ → Outcome Machine
change_state me m tr state = do
  left ← if (m.threads tr).state == thread_running then dequeue me m tr else ok m
  let changed = with_state left tr state
  if state == thread_running then (do (rc, entered) ← queue changed tr; ok entered) else ok changed

pub set_thread_state : ℕ → Machine → Ptr → ℕ → Outcome Machine
set_thread_state me m tr state =
    let t = m.threads tr in
    if t.state == state
    then ok m
    else if is_thread (m.sched me).current_thread tr
    then (do assert (t.state == thread_running); ok (requested m me tr state))
    else if (t.state == thread_dormant) && not (t.duration == 0)
    then (do assert (state == thread_running); restart m tr)
    else change_state me m tr state
