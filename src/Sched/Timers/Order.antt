-- ===== src/Sched/Timers/Order.antt =====
-- The paused threads stand in the order of their requests, whatever `pause` and `restart` do.
use racoon.Base.{
  ℕ, zero, suc, ◌+◌, ◌-◌, ◌≤◌, ◌<◌, ◌≡◌, ap, ap₂, subst₂, ◌∙◌, sym, List, ◌∷◌, ◌++◌, Bool, false,
  arith, ltb, ◌==◌, if◌then◌else◌, ok, halt, update, first_index_bounds, first_index_before,
  first_index_at, shift_up, shift_up_lem, tabulate, tabulate_ext, tabulate-head, tabulate_split,
  tabulate-add, tabulate-shift_up,
}
use racoon.Sched.State.{Ptr, PausedSchedule, SchedulerInfo}
use racoon.Sched.Timers.{pause_position, inserted, paused_at, fronted, restart_in}

-- The paused threads, the next to wake first.
unfoldable pub timers : SchedulerInfo → List PausedSchedule
timers si = tabulate si.pause_count si.pause_queue

abbrev pub request_of : SchedulerInfo → ℕ → ℕ
request_of si i = (si.pause_queue i).request

abbrev pub IsSorted : SchedulerInfo → Type 0
IsSorted si = (i j : ℕ) → i ≤ j → j < si.pause_count → request_of si i ≤ request_of si j

module _ (si : SchedulerInfo) (entry : PausedSchedule) where
  abbrev later : ℕ → Bool
  later i = ltb entry.request (request_of si i)

  position_bounds : pause_position si entry.request ≤ si.pause_count
  unfolding pause_position
  position_bounds = omega (arith, first_index_bounds later si.pause_count 0)

  before_position : (i : ℕ) → i < pause_position si entry.request → request_of si i ≤ entry.request
  unfolding pause_position
  before_position i lt = ground (arith, first_index_before later si.pause_count 0 i)

  at_position :
      pause_position si entry.request < si.pause_count
      → entry.request < request_of si (pause_position si entry.request)
  unfolding pause_position
  at_position lt = ground (arith, first_index_at later si.pause_count 0)

  -- The new entry stands behind those that wake no later, and before the others.
  inserted_at :
      (p m : ℕ)
      → si.pause_count ≡ p + m
      → (timers si ≡ tabulate p si.pause_queue ++ tabulate m (λ i. si.pause_queue (p + i)))
        × (timers (inserted si p entry)
            ≡ tabulate p si.pause_queue ++ (entry ∷ tabulate m (λ i. si.pause_queue (p + i))))
  unfolding timers
  inserted_at p m count =
      let rounds : si.pause_count - p ≡ m = omega arith in
      let more : si.pause_count + 1 ≡ p + suc m = omega arith in
      (
        ap (λ n. tabulate n si.pause_queue) count ∙ tabulate-add p m si.pause_queue,
        ap₂ (λ n k. tabulate n (update (shift_up k p si.pause_queue) p entry)) more rounds
            ∙ tabulate-shift_up p m si.pause_queue entry,
      )

  -- Where each request stands after the insertion at `p`.
  request-inserted :
      (p i : ℕ)
      → p ≤ si.pause_count
      → i ≤ si.pause_count
      → request_of (inserted si p entry) i ≡ (
          if i == p
          then entry.request
          else if ltb i p
          then request_of si i
          else request_of si (i - 1))
  request-inserted p i h l = ground (arith, shift_up_lem (si.pause_count - p) p si.pause_queue i)

  ordered_at :
      (p i j : ℕ)
      → i ≤ j
      → j ≤ si.pause_count
      → IsSorted si
      → p ≤ si.pause_count
      → ((k : ℕ) → k < p → request_of si k ≤ entry.request)
      → (p < si.pause_count → entry.request < request_of si p)
      → (if i == p
          then entry.request
          else if ltb i p
          then request_of si i
          else request_of si (i - 1))
        ≤ (if j == p
            then entry.request
            else if ltb j p
            then request_of si j
            else request_of si (j - 1))
  ordered_at p i j l h sorted inside before after = ground (
    arith,
    sorted i j,
    sorted i (j - 1),
    sorted (i - 1) (j - 1),
    sorted p (j - 1),
    before i,
    after,
  )

  -- Putting a thread in where `pause` does keeps the order.
  pub inserted-IsSorted :
      IsSorted si → IsSorted (inserted si (pause_position si entry.request) entry)
  inserted-IsSorted sorted i j l h =
      let p = pause_position si entry.request in
      subst₂ ◌≤◌ (sym (request-inserted p i position_bounds (omega arith)))
        (sym (request-inserted p j position_bounds (omega arith)))
        (ordered_at p i j l (omega arith) sorted position_bounds before_position at_position)

  -- `pause` puts the new entry behind the threads that wake no later, and before the others.
  pub inserted_lem :
      (xs : List PausedSchedule) × (ys : List PausedSchedule) × (timers si ≡ xs ++ ys)
      × (timers (inserted si (pause_position si entry.request) entry) ≡ xs ++ (entry ∷ ys))
  inserted_lem =
      let p = pause_position si entry.request in
      let m = si.pause_count - p in
      let (before, after) = inserted_at p m (omega (arith, position_bounds)) in
      (tabulate p si.pause_queue, tabulate m (λ i. si.pause_queue (p + i)), before, after)

-- The thread is paused.
abbrev pub IsPaused : SchedulerInfo → Ptr → Type 0
IsPaused si tr = (i : ℕ) × (i < si.pause_count) × ((si.pause_queue i).tr ≡ tr)

module _ (si : SchedulerInfo) (tr : Ptr) where
  abbrev is_it : ℕ → Bool
  is_it i = (si.pause_queue i).tr == tr

  paused_at-lt : IsPaused si tr → paused_at si tr < si.pause_count
  unfolding paused_at
  paused_at-lt (i, lt, e) = ground (
    arith,
    first_index_bounds is_it si.pause_count 0,
    first_index_before is_it si.pause_count 0 i,
  )

  found_paused : paused_at si tr < si.pause_count → (si.pause_queue (paused_at si tr)).tr ≡ tr
  unfolding paused_at
  found_paused lt = ground (arith, first_index_at is_it si.pause_count 0)

  fronted_at :
      (p m : ℕ)
      → si.pause_count ≡ p + suc m
      → (timers si
          ≡ tabulate p si.pause_queue
            ++ (si.pause_queue p ∷ tabulate m (λ i. si.pause_queue (p + suc i))))
        × (timers (fronted si p)
            ≡ record (si.pause_queue p) { request = 0 }
              ∷ (tabulate p si.pause_queue ++ tabulate m (λ i. si.pause_queue (p + suc i))))
  unfolding timers
  fronted_at p m count =
      let q = si.pause_queue in
      let front = update (shift_up p 0 q) 0 (record (q p) { request = 0 }) in
      (
        ap (λ n. tabulate n q) count ∙ tabulate_split p m q,
        ap (λ n. tabulate n front) (count ∙ (let e : p + suc m ≡ suc (p + m) = omega arith in e))
            ∙ tabulate-head (p + m) front
            ∙ ap (λ xs. record (q p) { request = 0 } ∷ xs)
                (tabulate-add p m (λ i. front (suc i))
                  ∙ ap₂ ◌++◌
                      (tabulate_ext p _ _ (λ i lt. ground (arith, shift_up_lem p 0 q (suc i))))
                      (tabulate_ext m _ _ (λ i lt.
                        let e : suc (p + i) ≡ p + suc i = omega arith in
                        ground (arith, shift_up_lem p 0 q (suc (p + i)), ap q e)))),
      )

  fronted-IsSorted : (p : ℕ) → p < si.pause_count → IsSorted si → IsSorted (fronted si p)
  fronted-IsSorted p lt sorted i j l h = ground (
    arith,
    shift_up_lem p 0 si.pause_queue i,
    shift_up_lem p 0 si.pause_queue j,
    sorted i j,
    sorted (i - 1) j,
    sorted (i - 1) (j - 1),
  )

  -- At the front both branches of `restart` write the same.
  restart_run :
      (p : ℕ)
      → p < si.pause_count
      → (if p == si.pause_count
          then halt
          else if p == 0
          then ok (record si {
            pause_queue = update si.pause_queue 0 (record (si.pause_queue 0) { request = 0 });
          })
          else ok (fronted si p))
        ≡ ok (fronted si p)
  unfolding shift_up
  restart_run zero lt = let e : (0 == si.pause_count) ≡ false = ground arith in rw e
  restart_run (suc p) lt =
      let e : (suc p == si.pause_count) ≡ false = ground arith in
      let n : (suc p == 0) ≡ false = ground arith in rw (e, n)

  -- Restarting a paused thread returns; the thread's first entry stands in front with a request of 0,
  -- so that it is the next to wake, the others keep their order, and all are in order.
  pub restart_in_lem :
      IsPaused si tr
      → IsSorted si
      → (si' : SchedulerInfo) × (xs : List PausedSchedule) × (ys : List PausedSchedule)
        × (entry : PausedSchedule) × (restart_in si tr ≡ ok si')
        × (entry.tr ≡ tr)
        × (timers si ≡ xs ++ (entry ∷ ys))
        × (timers si' ≡ record entry { request = 0 } ∷ (xs ++ ys))
        × IsSorted si'
  unfolding restart_in
  restart_in_lem r sorted =
      let p = paused_at si tr in
      let lt = paused_at-lt r in
      let m = si.pause_count - 1 - p in
      let (before, after) = fronted_at p m (omega (arith, lt)) in
      (
        fronted si p,
        tabulate p si.pause_queue,
        tabulate m (λ i. si.pause_queue (p + suc i)),
        si.pause_queue p,
        restart_run p lt,
        found_paused lt,
        before,
        after,
        fronted-IsSorted p lt sorted,
      )
