-- ===== src/Sched/RunQueue/Dequeue.antt =====
-- What the operations on the run queue promise.
use racoon.Base.{
  ◌≡◌, refl, ap₂, [], ◌∷◌, ◌++◌, false, Option, ok, tabulate_ext, tabulate-suc, Status, success,
  failure, arith, ◌⊎◌, inl, inr, ℕ_discrete,
}
use native.Mathlib.Numerals.{add-one}
use racoon.Sched.State.{Ptr, SchedulerInfo, sched_lock, sched_unlock}
use racoon.Sched.RunQueue.{is_thread, enqueued, sub_queue, position_of, closed, sub_dequeue}
use racoon.Sched.RunQueue.Invariant.{
  IsValid, ready, IsReady, Removed, position-lt, closed-Removed, closed-IsValid,
}

ready-enqueued : (si : SchedulerInfo) (tr : Ptr) → ready (enqueued si tr) ≡ ready si ++ (tr ∷ [])
unfolding ready
ready-enqueued si tr =
    rw (add-one, tabulate-suc si.sched_count)
      (ap₂ (λ xs x. xs ++ (x ∷ [])) (tabulate_ext si.sched_count _ _ (λ i lt. ground arith))
        (ground arith))

-- On a well-formed scheduler `sub_queue` returns with the lock free again: it puts the thread last in the queue, or, when the
-- queue is full, answers -1 and leaves the queue as it was.
pub sub_queue_lem :
    (si : SchedulerInfo) (tr : Ptr)
    → IsValid si
    → (rc : Status) × (si' : SchedulerInfo) × (sub_queue si tr ≡ ok (rc, si'))
      × IsValid si'
      × (((rc ≡ success) × (ready si' ≡ ready si ++ (tr ∷ [])))
          ⊎ ((rc ≡ failure) × (si.sched_count ≡ si.sched_size) × (ready si' ≡ ready si)))
unfolding sub_queue sched_lock sched_unlock ready
sub_queue_lem si tr v = elim (ℕ_discrete si.sched_count si.sched_size) [
  | yes full ↦ (
    failure,
    record si { idle = 0; nested_lock = 0 },
    ground arith,
    ground (arith, v),
    inr (refl, full, refl),
  )
  | no room ↦ (
    success,
    record (enqueued si tr) { idle = 0; nested_lock = 0 },
    ground arith,
    ground (arith, v),
    inl (refl, ready-enqueued si tr),
  )
]

-- On a well-formed scheduler, taking out a thread that is ready and is not the caller returns with the lock free again and the
-- first place of the thread closed up; the order of the others stays, and the position of the
-- next thread lies in the queue.
pub sub_dequeue_lem :
    (current : Option Ptr) (si : SchedulerInfo) (tr : Ptr)
    → IsValid si
    → is_thread current tr ≡ false
    → IsReady si tr
    → (si' : SchedulerInfo) × (sub_dequeue current si tr ≡ ok si')
      × IsValid si'
      × Removed tr (ready si) (ready si')
unfolding sub_dequeue sched_lock sched_unlock position_of ready
sub_dequeue_lem current si tr v other r =
    let lt = position-lt si tr r in
    (
      record (closed si (position_of si tr)) { idle = 0; nested_lock = 0 },
      ground (arith, lt),
      ground (arith, closed-IsValid si (position_of si tr) v),
      closed-Removed si tr lt,
    )
