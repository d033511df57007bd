-- ===== src/Sched/RunQueue/Request.antt =====
-- `remove_last`: what becomes of the state change that a running thread asked for.
use racoon.Base.{ℕ, ◌≡◌, ◌≢◌, refl, none, some, ok, update, arith}
use racoon.Sched.State.{Ptr, Threads, SchedulerInfo}
use racoon.Sched.RunQueue.{position_of, closed, remove_last}
use racoon.Sched.RunQueue.Invariant.{
  IsValid, ready, IsReady, Removed, position-lt, closed-Removed, closed-IsValid,
}

-- No request is left over.
abbrev pub IsQuiet : SchedulerInfo → Type 0
IsQuiet si = (si.requesting_thread ≡ none) × (si.requesting_state ≡ none)

-- On a well-formed scheduler a request of a thread in the queue is honoured: the thread leaves the queue, has the state it
-- asked for and belongs to no CPU; the other threads, their order and the invariant stay, and
-- the request is gone.
pub remove_last_lem :
    (si : SchedulerInfo) (threads : Threads) (tr : Ptr) (state : ℕ)
    → IsValid si
    → si.requesting_thread ≡ some tr
    → si.requesting_state ≡ some state
    → IsReady si tr
    → (si' : SchedulerInfo) × (threads' : Threads) × (remove_last si threads ≡ ok (si', threads'))
      × IsValid si'
      × IsQuiet si'
      × Removed tr (ready si) (ready si')
      × ((threads' tr).state ≡ state)
      × ((threads' tr).cpu ≡ none)
      × ((t : Ptr) → t ≢ tr → threads' t ≡ threads t)
unfolding remove_last ready
remove_last_lem si threads tr state v asked wants r =
    let lt = position-lt si tr r in
    (
      record (closed si (position_of si tr)) { requesting_thread = none; requesting_state = none },
      update threads tr (record (threads tr) { state = state; cpu = none }),
      rw (asked, wants) (ground (arith, lt)),
      ground (arith, closed-IsValid si (position_of si tr) v),
      (refl, refl),
      closed-Removed si tr lt,
      ground arith,
      ground arith,
      λ t other. ground arith,
    )
