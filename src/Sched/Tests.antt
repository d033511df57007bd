-- ===== src/Sched/Tests.antt =====
-- A scheduler with three ready and three paused threads.
use racoon.Base.{
  ℕ, ◌≡◌, refl, ◌<◌, ◌+◌, ◌*◌, none, some, if◌then◌else◌, ◌==◌, ok, arith, ◌∷◌, [], tabulate,
}
use racoon.Sched.State.{Threads, PausedSchedule, SchedulerInfo}
use racoon.Sched.RunQueue.{sub_dequeue}
use racoon.Sched.RunQueue.Invariant.{IsValid, ready, Removed}
use racoon.Sched.RunQueue.Dequeue.{sub_dequeue_lem}
use racoon.Sched.RunQueue.RoundRobin.{chosen, chosen_all}
use racoon.Sched.FastQueue.Fifo.{IsRing, waiting_count, fast_threads}
use racoon.Sched.Timers.{remove_timers, inserted, pause_position}
use racoon.Sched.Timers.Order.{IsSorted, inserted-IsSorted}
use racoon.Sched.Timers.Expire.{Expired, remove_timers_lem}

abbrev pub threads : Threads
threads = λ t. record {
  tid = t;
  state = 1;
  duration = 0;
  cpu = some 0;
  cpu_affinity = none;
  fast_queued = 0;
}

-- Threads 60, 61 and 62 sleep until the times 10, 20 and 30.
abbrev pauses : ℕ → PausedSchedule
pauses = λ i. record { tr = 60 + i; state = 1; request = 10 + 10 * i; start = 5 }

-- Threads 50, 51 and 52 are ready, and the second is next.
abbrev pub busy : SchedulerInfo
busy = record {
  cpu_id = 0;
  current_thread = none;
  requesting_state = none;
  requesting_thread = none;
  sched_queue = λ i. 50 + i;
  pause_queue = pauses;
  sched_count = 3;
  pause_count = 3;
  sched_size = 1024;
  pause_size = 1024;
  idle = 1;
  nested_lock = 0;
  position = 1;
  fast_queue = λ _. 0;
  fast_start = 0;
  fast_stop = 0;
}

-- Thread 51 has asked to be suspended.
abbrev asking : SchedulerInfo
asking = record busy { requesting_thread = some 51; requesting_state = some 4 }

pub busy-IsValid : IsValid busy
busy-IsValid = record {
  count_in = omega arith;
  small = omega arith;
  position_in = λ h. omega arith;
  at_rest = λ h. absurd (omega arith);
  unlocked = refl;
}

asking-IsValid : IsValid asking
asking-IsValid = record {
  count_in = omega arith;
  small = omega arith;
  position_in = λ h. omega arith;
  at_rest = λ h. absurd (omega arith);
  unlocked = refl;
}

busy-IsSorted : IsSorted busy
busy-IsSorted i j l h = omega arith

abbrev entry : PausedSchedule
entry = record { tr = 70; state = 1; request = 20; start = 8 }

sub_dequeue_example :
    (si' : SchedulerInfo) × (sub_dequeue (some 50) busy 51 ≡ ok si')
    × IsValid si'
    × Removed 51 (ready busy) (ready si')
sub_dequeue_example = sub_dequeue_lem (some 50) busy 51 busy-IsValid refl (1, omega arith, refl)

chosen_all_example : (k : ℕ) × (k < 3) × (chosen k busy ≡ 50)
chosen_all_example = chosen_all busy 50 busy-IsValid (0, omega arith, refl)

inserted-IsSorted_example : IsSorted (inserted busy (pause_position busy 20) entry)
inserted-IsSorted_example = inserted-IsSorted busy entry busy-IsSorted

remove_timers_example :
    (n : ℕ) × (wait : ℕ) × (si' : SchedulerInfo) × (threads' : Threads) × (remove_timers busy
        threads 20
      ≡ ok (wait, si', threads'))
    × Expired n wait 20 busy threads si' threads'
remove_timers_example = remove_timers_lem busy threads 20 busy-IsValid busy-IsSorted (omega arith)

-- Threads 50 to 62 prefer CPU 0; thread 7 waits in its fast queue, round the end of the ring.
abbrev fast_busy : SchedulerInfo
fast_busy = record busy {
  fast_queue = λ i. if i == 31 then 7 else 8;
  fast_start = 31;
  fast_stop = 1;
}

abbrev eager : Threads
eager = λ t. record (threads t) { cpu_affinity = some 0; fast_queued = 1 }

fast_busy-IsRing : IsRing fast_busy
fast_busy-IsRing = record { start_in = omega arith; stop_in = omega arith; unlocked = refl }

fast_busy_threads : fast_threads fast_busy ≡ 7 ∷ 8 ∷ []
unfolding fast_threads waiting_count tabulate
fast_busy_threads = refl
