-- ===== src/Sched/Threads/Tests.antt =====
-- Changes of state on a machine with two CPUs.
use racoon.Base.{ℕ, ◌≡◌, refl, arith, ◌==◌, if◌then◌else◌, none, some, ok, ◌++◌, ◌∷◌, [], inl}
use racoon.Sched.RunQueue.Invariant.{IsValid, ready, Removed}
use racoon.Sched.Tests.{busy, threads}
use racoon.Sched.Threads.{Machine, home, set_thread_state}
use racoon.Sched.Threads.States.{IsElsewhere, set_thread_state_stop, set_thread_state_start}

-- CPU 0 runs thread 50. Thread 91 is suspended.
abbrev two_cpus : Machine
two_cpus = record {
  cpu_count = 2;
  sched = λ i. record busy { cpu_id = i; current_thread = if i == 0 then some 50 else none };
  threads = λ t. if t == 91 then record (threads 91) { state = 4; cpu = none } else threads t;
}

both-IsValid : (i : ℕ) → IsValid (two_cpus.sched i)
both-IsValid i = record {
  count_in = omega arith;
  small = omega arith;
  position_in = λ h. omega arith;
  at_rest = λ h. absurd (omega arith);
  unlocked = refl;
}

set_thread_state_stop_example :
    (m' : Machine) × (set_thread_state 1 two_cpus 51 4 ≡ ok m')
    × ((m'.threads 51).state ≡ 4)
    × ((m'.threads 51).cpu ≡ none)
    × IsValid (m'.sched 0)
    × Removed 51 (ready (two_cpus.sched 0)) (ready (m'.sched 0))
    × IsElsewhere two_cpus m' 0 51
set_thread_state_stop_example =
    set_thread_state_stop 1 two_cpus 51 0 4 refl (omega arith) refl refl (omega arith)
      (both-IsValid 0) (1, omega arith, refl)

home-two_cpus : home two_cpus 91 ≡ ok 0
unfolding home
home-two_cpus = refl

set_thread_state_start_example :
    (m' : Machine) × (set_thread_state 0 two_cpus 91 1 ≡ ok m')
    × ((m'.threads 91).state ≡ 1)
    × ((m'.threads 91).cpu ≡ some 0)
    × IsValid (m'.sched 0)
    × (ready (m'.sched 0) ≡ ready (two_cpus.sched 0) ++ (91 ∷ []))
    × IsElsewhere two_cpus m' 0 91
set_thread_state_start_example =
    set_thread_state_start 0 two_cpus 91 0 1 (omega arith) (inl (omega arith)) refl refl
      home-two_cpus (omega arith) refl (both-IsValid 0) (omega arith)
