-- ===== src/Sched/FastQueue/Fifo.antt =====
-- The fast queue is a queue: what enters last leaves last, and no thread is lost.
use racoon.Base.{
  ℕ, zero, suc, ◌+◌, ◌-◌, ◌%◌, ◌<◌, ◌≡◌, ◌≢◌, ap, ap₂, ◌∙◌, sym, List, [], ◌∷◌, ◌++◌, none, some,
  ◌==◌, if◌then◌else◌, ok, halt, inl, inr, tabulate, tabulate_ext, tabulate-suc, tabulate-head,
  arith, ◌⊎◌, add32, sub32, ℕ_discrete,
}
use native.Mathlib.Numerals.{add-one}
use racoon.Sched.State.{Ptr, Threads, SchedulerInfo, sched_lock, sched_unlock}
use racoon.Sched.FastQueue.{
  fast_queue, fast_dequeue, get_fast, fast_entered, fast_left, fast_marked,
}

-- How many threads are in the ring.
unfoldable pub waiting_count : SchedulerInfo → ℕ
waiting_count si = (si.fast_stop + 32 - si.fast_start) % 32

-- The threads of the ring, the next one first.
unfoldable pub fast_threads : SchedulerInfo → List Ptr
fast_threads si = tabulate (waiting_count si) (λ i. si.fast_queue ((si.fast_start + i) % 32))

pub record IsRing (si : SchedulerInfo) : Type 0 where
  pub start_in : si.fast_start < 32
  pub stop_in : si.fast_stop < 32
  pub unlocked : si.nested_lock ≡ 0

-- A thread that may enter: there is room, and it prefers CPU `id`.
module _ (cpu_count id : ℕ) (si : SchedulerInfo) (threads : Threads) (tr : Ptr)
    (v : IsRing si) where
  entered-count : waiting_count si < 31 → waiting_count (fast_entered si tr) ≡ waiting_count si + 1
  unfolding waiting_count
  entered-count room = omega (arith, v)

  entered_threads :
      waiting_count si < 31 → fast_threads (fast_entered si tr) ≡ fast_threads si ++ (tr ∷ [])
  unfolding fast_threads waiting_count
  entered_threads room =
      ap (λ n. tabulate n (λ i. (fast_entered si tr).fast_queue ((si.fast_start + i) % 32)))
        (entered-count room ∙ add-one (waiting_count si))
      ∙ tabulate-suc (waiting_count si) _
      ∙ ap₂ (λ xs x. xs ++ (x ∷ []))
          (tabulate_ext (waiting_count si) _ _ (λ i lt.
            let other : (si.fast_start + i) % 32 ≢ si.fast_stop = omega (arith, v) in ground arith))
          (let last : (si.fast_start + waiting_count si) % 32 ≡ si.fast_stop = omega (arith, v) in
            ground (arith, last))

  -- A thread enters the fast queue of the CPU it prefers, behind those that wait there: then it
  -- belongs to that CPU and is counted once more, and no other thread changes. With 31 threads
  -- waiting the kernel halts: the queue never forgets a thread.
  pub fast_queue_lem :
      (threads tr).cpu_affinity ≡ some id
      → id < cpu_count
      → ((waiting_count si < 31)
          × (si' : SchedulerInfo) × (threads' : Threads) × (fast_queue cpu_count si threads tr
              ≡ ok (si', threads'))
          × IsRing si'
          × (fast_threads si' ≡ fast_threads si ++ (tr ∷ []))
          × ((threads' tr).cpu ≡ some id)
          × ((threads' tr).fast_queued ≡ add32 (threads tr).fast_queued 1)
          × ((t : Ptr) → t ≢ tr → threads' t ≡ threads t))
        ⊎ ((waiting_count si ≡ 31) × (fast_queue cpu_count si threads tr ≡ halt))
  unfolding fast_queue sched_lock sched_unlock waiting_count fast_threads
  fast_queue_lem prefers known = elim (ℕ_discrete (waiting_count si) 31) [
    | yes full ↦
        let stop : (si.fast_stop + 1) % 32 ≡ si.fast_start = omega (arith, v, full) in
        inr (full, rw (prefers, fast_queue) (ground (arith, stop, v)))
    | no room ↦
        let few : waiting_count si < 31 = omega (arith, v, room) in
        let stop : (si.fast_stop + 1) % 32 ≢ si.fast_start = omega (arith, v, room) in
        inl (
          few,
          record (fast_entered si tr) { idle = 0; nested_lock = 0 },
          fast_marked threads tr id,
          rw (prefers, fast_queue) (ground (arith, stop, v)),
          omega (arith, v),
          entered_threads few,
          ground arith,
          ground arith,
          λ t other. ground arith,
        )
  ]

-- An array that lists as `x ∷ xs` has `x` first.
from_front :
    (n : ℕ) (f : ℕ → Ptr) (x : Ptr) (xs : List Ptr)
    → tabulate n f ≡ x ∷ xs
    → (0 < n) × (f 0 ≡ x) × (tabulate (n - 1) (λ i. f (suc i)) ≡ xs)
unfolding tabulate
from_front zero f x xs e = absurd (ground (arith, e))
from_front (suc n) f x xs e =
    let split : f 0 ∷ tabulate n (λ i. f (suc i)) ≡ x ∷ xs = sym (tabulate-head n f) ∙ e in
    let one_less : suc n - 1 ≡ n = omega arith in
    (
      omega arith,
      ground (arith, split),
      ap (λ k. tabulate k (λ i. f (suc i))) one_less ∙ ground (arith, split),
    )

module _ (me : ℕ) (si : SchedulerInfo) (threads : Threads) (tr : Ptr) (rest : List Ptr)
    (v : IsRing si) where
  -- The thread at the front is the one that `get_fast` answers. It leaves the fast queue when its
  -- CPU takes it out, the others stay in their order, and it belongs to no CPU once it is
  -- counted no more.
  pub fast_dequeue_lem :
      fast_threads si ≡ tr ∷ rest
      → (threads tr).cpu ≡ some me
      → (get_fast si ≡ some tr)
        × (si' : SchedulerInfo) × (threads' : Threads) × (fast_dequeue me si threads tr
            ≡ ok (si', threads'))
        × IsRing si'
        × (fast_threads si' ≡ rest)
        × ((threads' tr).fast_queued ≡ sub32 (threads tr).fast_queued 1)
        × ((threads' tr).cpu ≡ (if sub32 (threads tr).fast_queued 1 == 0 then none else some me))
        × ((t : Ptr) → t ≢ tr → threads' t ≡ threads t)
  unfolding fast_dequeue sched_lock sched_unlock get_fast fast_threads waiting_count
  fast_dequeue_lem front mine =
      let (some_wait, first, others) = from_front (waiting_count si) _ tr rest front in
      let at_start : si.fast_queue si.fast_start ≡ tr =
        ap si.fast_queue (omega (arith, v)) ∙ first in
      let waits : si.fast_start ≢ si.fast_stop = omega (arith, v, some_wait) in
      (
        ground (arith, waits, at_start),
        record si { idle = 0; nested_lock = 0; fast_start = (si.fast_start + 1) % 32 },
        fast_left threads tr,
        rw (mine, fast_dequeue) (ground (arith, at_start, v)),
        omega (arith, v),
        ap (λ n. tabulate n (λ i. si.fast_queue (((si.fast_start + 1) % 32 + i) % 32)))
              (let one_less : (si.fast_stop + 32 - (si.fast_start + 1) % 32) % 32
                    ≡ waiting_count si - 1 =
                  omega (arith, v, some_wait) in
                one_less)
            ∙ tabulate_ext (waiting_count si - 1) _ _ (λ i lt. ap si.fast_queue (omega arith))
            ∙ others,
        ground arith,
        ground (arith, mine),
        λ t other. ground arith,
      )
