-- ===== src/Sched/Timers.antt =====
-- The queue of paused threads of kernel/scheduler/scheduler.c, in the order in which they wake up:
-- putting one in, moving one to the front, and waking those whose time has come.
pub mod Expire
pub mod Order
pub mod Wake
use racoon.Base.{
  ℕ, zero, suc, ◌+◌, ◌-◌, Bool, true, false, not, Option, none, some, ltb, leb, ◌==◌, if◌then◌else◌,
  Outcome, ok, halt, ◌>>=◌, ◌>>◌, assert, update, first_index, shift_down, shift_up, sub64,
}
use racoon.Sched.State.{Ptr, Thread, Threads, PausedSchedule, SchedulerInfo}

-- Where `pause` puts a thread that wakes at `target`.
pub pause_position : SchedulerInfo → ℕ → ℕ
pause_position si target = first_index (λ i. ltb target (si.pause_queue i).request) si.pause_count 0

-- Move everything up one, and write the entry.
abbrev pub inserted : SchedulerInfo → ℕ → PausedSchedule → SchedulerInfo
inserted si pos entry = record si {
  pause_queue = update (shift_up (si.pause_count - pos) pos si.pause_queue) pos entry;
  pause_count = si.pause_count + 1;
}

-- Where `restart` finds a thread.
pub paused_at : SchedulerInfo → Ptr → ℕ
paused_at si tr = first_index (λ i. (si.pause_queue i).tr == tr) si.pause_count 0

-- Its entry with a request of 0, at the front.
abbrev pub fronted : SchedulerInfo → ℕ → SchedulerInfo
fronted si pos = record si {
  pause_queue =
      update (shift_up pos 0 si.pause_queue) 0 (record (si.pause_queue pos) { request = 0 });
}

-- The body of `restart` under the lock.
pub restart_in : SchedulerInfo → Ptr → Outcome SchedulerInfo
restart_in si tr =
    let pos = paused_at si tr in
    if pos == si.pause_count
    then halt
    else if pos == 0
    then ok (record si {
      pause_queue = update si.pause_queue 0 (record (si.pause_queue 0) { request = 0 });
    })
    else ok (fronted si pos)

-- One round of the loop of `remove_timers`: the thread is ready again.
abbrev pub woken : SchedulerInfo → Ptr → SchedulerInfo
woken si tr = record si {
  sched_queue = update si.sched_queue si.sched_count tr;
  sched_count = si.sched_count + 1;
  pause_count = si.pause_count - 1;
}

abbrev pub awake : SchedulerInfo → PausedSchedule → ℕ → Threads → Threads
awake si p time threads =
    update threads p.tr (record (threads p.tr) {
      state = p.state;
      duration = sub64 time p.start;
      cpu = some si.cpu_id;
    })

-- The loop, with `k` paused threads left and `count` woken.
pub wake : ℕ → ℕ → ℕ → SchedulerInfo → Threads → Outcome (ℕ × SchedulerInfo × Threads)
wake zero count time si threads = ok (count, si, threads)
wake (suc k) count time si threads =
    let p = si.pause_queue count in
    elim (leb p.request time) [
      | false ↦ ok (count, si, threads)
      | true ↦ do
        assert (not (si.sched_count == si.sched_size))
        wake k (count + 1) time (woken si p.tr) (awake si p time threads)
    ]

-- The time to the next wake-up, and the new state.
pub remove_timers : SchedulerInfo → Threads → ℕ → Outcome (ℕ × SchedulerInfo × Threads)
remove_timers si threads time = if si.pause_count == 0 then ok (0, si, threads) else (do
  (count, s, threads') ← wake si.pause_count 0 time si threads
  let left = record s { pause_queue = shift_down count s.pause_count 0 s.pause_queue }
  let wait = if left.pause_count == 0 then 0 else sub64 (left.pause_queue 0).request time
  ok (wait, left, threads'))
