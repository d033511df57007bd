-- ===== src/Sched/Start.antt =====
-- The scheduler as `load_scheduler` sets it up.
use racoon.Base.{ℕ, ◌≡◌, refl, arith, []}
use racoon.Sched.State.{Ptr, PausedSchedule, load_scheduler}
use racoon.Sched.RunQueue.Invariant.{IsValid, ready}
use racoon.Sched.Timers.Order.{timers, IsSorted}
use racoon.Sched.FastQueue.Fifo.{IsRing, fast_threads, waiting_count}
use racoon.Base.{tabulate}

-- A loaded scheduler is well-formed, whatever the memory of its queues held, and nothing is ready,
-- paused or in the fast queue.
pub load_scheduler_lem :
    (cpu_id : ℕ) (pauses : ℕ → PausedSchedule) (fast : ℕ → Ptr)
    → IsValid (load_scheduler cpu_id pauses fast)
      × IsSorted (load_scheduler cpu_id pauses fast)
      × IsRing (load_scheduler cpu_id pauses fast)
      × (ready (load_scheduler cpu_id pauses fast) ≡ [])
      × (timers (load_scheduler cpu_id pauses fast) ≡ [])
      × (fast_threads (load_scheduler cpu_id pauses fast) ≡ [])
unfolding load_scheduler ready timers fast_threads waiting_count tabulate
load_scheduler_lem cpu_id pauses fast = (
  record {
    count_in = omega arith;
    small = omega arith;
    position_in = λ h. omega arith;
    at_rest = λ h. refl;
    unlocked = refl;
  },
  λ i j l h. absurd (omega arith),
  record { start_in = omega arith; stop_in = omega arith; unlocked = refl },
  refl,
  refl,
  refl,
)
