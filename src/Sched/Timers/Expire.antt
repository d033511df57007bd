-- ===== src/Sched/Timers/Expire.antt =====
-- `remove_timers` wakes exactly the paused threads whose time has come.
use racoon.Base.{
  ℕ, ◌+◌, ◌-◌, ◌≤◌, ◌<◌, ◌≡◌, ◌≢◌, refl, ap, ◌∙◌, sym, ◌++◌, true, false, arith, ◌==◌,
  if◌then◌else◌, ok, Bool-cases, inl, inr, shift_down, shift_down_lem, tabulate, tabulate_ext,
  sub64,
}
use mathlib.Core.List.{append-nil}
use racoon.Sched.State.{Ptr, Threads, SchedulerInfo}
use racoon.Sched.RunQueue.Invariant.{IsValid, ready}
use racoon.Sched.Timers.{wake, remove_timers}
use racoon.Sched.Timers.Order.{timers, request_of, IsSorted}
use racoon.Sched.Timers.Wake.{IsAwake, thread_of, Woken, wake-Woken}

-- What `remove_timers` does with the first `n` paused threads woken.
pub record Expired (n wait time : ℕ) (si : SchedulerInfo) (threads : Threads) (si' : SchedulerInfo)
    (threads' : Threads) : Type 0 where
  pub split : si'.pause_count + n ≡ si.pause_count
  pub due : (i : ℕ) → i < n → request_of si i ≤ time
  pub not_due : (i : ℕ) → n ≤ i → i < si.pause_count → time < request_of si i
  pub queue : ready si' ≡ ready si ++ tabulate n (thread_of si)
  pub left : timers si' ≡ tabulate (si.pause_count - n) (λ i. si.pause_queue (n + i))
  pub next : wait ≡ (if si'.pause_count == 0 then 0 else sub64 (request_of si n) time)
  pub valid : IsValid si'
  pub others : (t : Ptr) → ((i : ℕ) → i < n → thread_of si i ≢ t) → threads' t ≡ threads t
  pub awoken :
      (i : ℕ)
      → i < n
      → ((j : ℕ) → i < j → j < n → thread_of si j ≢ thread_of si i)
      → IsAwake si (si.pause_queue i) time (threads' (thread_of si i))

from_start : {A : Type 0} → (n : ℕ) (f : ℕ → A) → tabulate (n - 0) (λ i. f (0 + i)) ≡ tabulate n f
from_start n f =
    let all : n - 0 ≡ n = omega arith in
    ap (λ k. tabulate k (λ i. f (0 + i))) all ∙ tabulate_ext n _ _ (λ i lt. ap f (omega arith))

nothing_paused :
    (si : SchedulerInfo) (threads : Threads) (time : ℕ)
    → IsValid si
    → (si.pause_count == 0) ≡ true
    → (n : ℕ) × (wait : ℕ) × (si' : SchedulerInfo) × (threads' : Threads) × (remove_timers si
          threads time
        ≡ ok (wait, si', threads'))
      × Expired n wait time si threads si' threads'
unfolding remove_timers timers tabulate
nothing_paused si threads time v e = (
  0,
  0,
  si,
  threads,
  rw e,
  record {
    split = omega arith;
    due = λ i h. absurd (omega arith);
    not_due = λ i l h. absurd (ground arith);
    queue = sym (append-nil (ready si));
    left = sym (from_start si.pause_count si.pause_queue);
    next = rw e;
    valid = v;
    others = λ t h. refl;
    awoken = λ i h. absurd (omega arith);
  },
)

-- The paused threads that are left, moved to the front.
abbrev moved : ℕ → SchedulerInfo → SchedulerInfo
moved n s = record s { pause_queue = shift_down n s.pause_count 0 s.pause_queue }

abbrev waiting : ℕ → SchedulerInfo → ℕ
waiting time s = if s.pause_count == 0 then 0 else sub64 (request_of s 0) time

module _ (n time : ℕ) (si : SchedulerInfo) (threads : Threads) (si' : SchedulerInfo)
    (threads' : Threads) (some_left : (si.pause_count == 0) ≡ false) (sorted : IsSorted si)
    (run : wake si.pause_count 0 time si threads ≡ ok (n, si', threads'))
    (w : Woken 0 n time si threads si' threads') where
  remove_timers_run :
      remove_timers si threads time ≡ ok (waiting time (moved n si'), moved n si', threads')
  unfolding remove_timers
  remove_timers_run = rw (some_left, run)

  queue_moved : (i : ℕ) → i < si'.pause_count → (moved n si').pause_queue i ≡ si.pause_queue (n + i)
  queue_moved i lt =
      ground (arith, shift_down_lem n si'.pause_count 0 si'.pause_queue i)
      ∙ ap (λ q. q (i + n)) w.same.0
      ∙ ap si.pause_queue (omega arith)

  timers-moved : timers (moved n si') ≡ tabulate (si.pause_count - n) (λ i. si.pause_queue (n + i))
  unfolding timers
  timers-moved =
      let rest : si'.pause_count ≡ si.pause_count - n = omega (arith, w.left) in
      tabulate_ext si'.pause_count _ _ queue_moved
      ∙ ap (λ k. tabulate k (λ i. si.pause_queue (n + i))) rest

  next_moved :
      waiting time (moved n si')
      ≡ (if si'.pause_count == 0 then 0 else sub64 (request_of si n) time)
  next_moved = elim (Bool-cases (si'.pause_count == 0)) [
    | inl e ↦ rw e
    | inr e ↦ rw e (
        ap (λ p. sub64 p.request time)
          (queue_moved 0 (ground arith) ∙ ap si.pause_queue (omega arith)))
  ]

  after_wake :
      (n : ℕ) × (wait : ℕ) × (si' : SchedulerInfo) × (threads' : Threads) × (remove_timers si
          threads time
        ≡ ok (wait, si', threads'))
      × Expired n wait time si threads si' threads'
  unfolding ready
  after_wake = (
    n,
    waiting time (moved n si'),
    moved n si',
    threads',
    remove_timers_run,
    record {
      split = omega (arith, w.left);
      due = λ i h. w.due i (omega arith) h;
      not_due = λ i l h. ground (arith, w.not_due (omega (arith, w.left)), sorted n i l h);
      queue = w.queue ∙ ap (λ xs. ready si ++ xs) (from_start n (thread_of si));
      left = timers-moved;
      next = next_moved;
      valid = ground (arith, w.valid);
      others = λ t differ. w.others t (λ i l h. differ i h);
      awoken = λ i h last. w.awoken i (omega arith) h last;
    },
  )

-- On a well-formed scheduler whose paused threads are in the order of their times, with room for
-- them in the run queue, `remove_timers` returns. It wakes the first `n`
-- paused threads: their times have come, and those of the others have not. The woken go to the end
-- of the run queue in their order, each with its saved state, the time that it slept and this CPU;
-- no other thread changes. The others stay paused in their order, and the result is the time until
-- the first of them wakes, or 0 if there is none.
pub remove_timers_lem :
    (si : SchedulerInfo) (threads : Threads) (time : ℕ)
    → IsValid si
    → IsSorted si
    → si.sched_count + si.pause_count ≤ si.sched_size
    → (n : ℕ) × (wait : ℕ) × (si' : SchedulerInfo) × (threads' : Threads) × (remove_timers si
          threads time
        ≡ ok (wait, si', threads'))
      × Expired n wait time si threads si' threads'
remove_timers_lem si threads time v sorted room = elim (Bool-cases (si.pause_count == 0)) [
  | inl none_left ↦ nothing_paused si threads time v none_left
  | inr some_left ↦
      let (n, si', threads', run, w) = wake-Woken si.pause_count 0 time si threads refl room v in
      after_wake n time si threads si' threads' some_left sorted run w
]
