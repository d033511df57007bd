-- ===== src/Sched/RunQueue/Invariant.antt =====
-- What holds of the run queue between two operations, and the threads that it lists.
use racoon.Base.{
  ℕ, zero, suc, ◌+◌, ◌-◌, ◌^◌, ◌≤◌, ◌<◌, ◌≡◌, ◌≢◌, ap, ap₂, ◌∙◌, List, [], ◌∷◌, ◌++◌, Bool, ◌==◌,
  sub32, first_index_bounds, first_index_before, first_index_at, shift_down, tabulate,
  tabulate_split, tabulate-shift_down, arith, ℕ_discrete,
}
use native.Mathlib.Nat.{mod-lt}
use racoon.Sched.State.{Ptr, SchedulerInfo}
use racoon.Sched.RunQueue.{position_of, step_back, closed}

pub record IsValid (si : SchedulerInfo) : Type 0 where
  pub count_in : si.sched_count ≤ si.sched_size
  pub small : si.sched_size < 2 ^ 31
  pub position_in : 0 < si.sched_count → si.position < si.sched_count
  pub at_rest : si.sched_count ≡ 0 → si.position ≡ 0
  pub unlocked : si.nested_lock ≡ 0

-- The threads that are ready to run, in the order of the queue.
unfoldable pub ready : SchedulerInfo → List Ptr
ready si = tabulate si.sched_count si.sched_queue

-- `si'` has the timers, the fast queue and the request of `si`.
pub record SameRest (si si' : SchedulerInfo) : Type 0 where
  pub pauses : (si'.pause_queue ≡ si.pause_queue) × (si'.pause_count ≡ si.pause_count)
  pub fast :
      (si'.fast_queue ≡ si.fast_queue)
      × (si'.fast_start ≡ si.fast_start)
      × (si'.fast_stop ≡ si.fast_stop)

-- `xs` has no `tr`.
abbrev pub Without : Ptr → List Ptr → Type 0
Without tr [] = Unit
Without tr (x ∷ xs) = (x ≢ tr) × Without tr xs

Without-append :
    (tr : Ptr) (xs ys : List Ptr) → Without tr xs → Without tr ys → Without tr (xs ++ ys)
Without-append tr [] ys h k = k
Without-append tr (x ∷ xs) ys h k = (h.0, Without-append tr xs ys h.1 k)

Without-tabulate :
    (tr : Ptr) (n : ℕ) (a : ℕ → Ptr) → ((i : ℕ) → i < n → a i ≢ tr) → Without tr (tabulate n a)
unfolding tabulate
Without-tabulate tr zero a h = tt
Without-tabulate tr (suc n) a h =
    Without-append tr (tabulate n a) (a n ∷ [])
      (Without-tabulate tr n a (λ i lt. h i (omega arith))) (h n (omega arith), tt)

-- The thread stands in the queue.
abbrev pub IsReady : SchedulerInfo → Ptr → Type 0
IsReady si tr = (i : ℕ) × (i < si.sched_count) × (si.sched_queue i ≡ tr)

-- The queue of `si'` is that of `si` with its first `tr` taken out.
abbrev pub Removed : Ptr → List Ptr → List Ptr → Type 0
Removed tr before after =
    (xs : List Ptr) × (ys : List Ptr) × (before ≡ xs ++ (tr ∷ ys))
    × (after ≡ xs ++ ys)
    × Without tr xs

module _ (si : SchedulerInfo) (tr : Ptr) where
  abbrev here : ℕ → Bool
  here i = si.sched_queue i == tr

  pub position-lt : IsReady si tr → position_of si tr < si.sched_count
  unfolding position_of
  position-lt (i, lt, e) =
      ground (
        arith,
        first_index_bounds here si.sched_count 0,
        first_index_before here si.sched_count 0 i,
      )

  -- The found position holds `tr`, and no position before it does.
  found_at : position_of si tr < si.sched_count → si.sched_queue (position_of si tr) ≡ tr
  unfolding position_of
  found_at lt = ground (arith, first_index_at here si.sched_count 0)

  not_before : (i : ℕ) → i < position_of si tr → si.sched_queue i ≢ tr
  unfolding position_of
  not_before i lt = ground (arith, first_index_before here si.sched_count 0 i)

  closed_at-Removed :
      (p m : ℕ)
      → si.sched_count ≡ p + suc m
      → si.sched_queue p ≡ tr
      → ((i : ℕ) → i < p → si.sched_queue i ≢ tr)
      → Removed tr (ready si) (ready (closed si p))
  unfolding ready
  closed_at-Removed p m count at before =
      let q = si.sched_queue in
      let left : si.sched_count - 1 ≡ p + m = omega arith in
      let rounds : si.sched_count - 1 - p ≡ m = omega arith in
      (
        tabulate p q,
        tabulate m (λ i. q (p + suc i)),
        ap (λ n. tabulate n q) count
            ∙ tabulate_split p m q
            ∙ ap (λ t. tabulate p q ++ (t ∷ tabulate m (λ i. q (p + suc i)))) at,
        ap₂ (λ n k. tabulate n (shift_down 1 k p q)) left rounds ∙ tabulate-shift_down p m q,
        Without-tabulate tr p q before,
      )

  pub closed-Removed :
      position_of si tr < si.sched_count
      → Removed tr (ready si) (ready (closed si (position_of si tr)))
  closed-Removed lt =
      closed_at-Removed (position_of si tr) (si.sched_count - 1 - position_of si tr) (omega arith)
        (found_at lt) not_before

-- Closing a gap keeps the invariant, whatever the position was.
pub closed-IsValid : (si : SchedulerInfo) (p : ℕ) → IsValid si → IsValid (closed si p)
unfolding step_back
closed-IsValid si p v = elim (ℕ_discrete (si.sched_count - 1) 0) [
  | yes last ↦ ground (arith, v)
  | no more ↦
      let below = mod-lt (sub32 si.position 1) {m = si.sched_count - 1} (omega arith) in
      ground (arith, below)
]
