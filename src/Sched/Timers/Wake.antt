-- ===== src/Sched/Timers/Wake.antt =====
-- The loop of `remove_timers`, round by round.
use racoon.Base.{
  ℕ, zero, suc, ◌+◌, ◌-◌, ◌≤◌, ◌<◌, ◌≡◌, ◌≢◌, refl, ap, ap₂, ◌∙◌, sym, [], ◌∷◌, ◌++◌, true, false,
  arith, some, leb, ◌==◌, ok, Bool-cases, inl, inr, tabulate, tabulate_ext, tabulate-suc,
  tabulate-head, ℕ_discrete, sub64,
}
use mathlib.Core.List.{append-nil, append_assoc}
use native.Mathlib.Numerals.{add-one}
use racoon.Sched.State.{Ptr, Thread, Threads, PausedSchedule, SchedulerInfo}
use racoon.Sched.RunQueue.Invariant.{IsValid, ready}
use racoon.Sched.Timers.{woken, awake, wake}
use racoon.Sched.Timers.Order.{request_of}

-- What waking writes into the thread of an entry.
abbrev pub IsAwake : SchedulerInfo → PausedSchedule → ℕ → Thread → Type 0
IsAwake si p time t =
    (t.state ≡ p.state) × (t.duration ≡ sub64 time p.start) × (t.cpu ≡ some si.cpu_id)

abbrev pub thread_of : SchedulerInfo → ℕ → Ptr
thread_of si i = (si.pause_queue i).tr

-- The loop has gone from entry `c` to entry `n`.
pub record Woken (c n time : ℕ) (si : SchedulerInfo) (threads : Threads) (si' : SchedulerInfo)
    (threads' : Threads) : Type 0 where
  pub from : c ≤ n
  pub left : si'.pause_count + n ≡ si.pause_count + c
  pub same : (si'.pause_queue ≡ si.pause_queue) × (si'.cpu_id ≡ si.cpu_id)
  pub due : (i : ℕ) → c ≤ i → i < n → request_of si i ≤ time
  pub not_due : 0 < si'.pause_count → time < request_of si n
  pub queue : ready si' ≡ ready si ++ tabulate (n - c) (λ i. thread_of si (c + i))
  pub valid : IsValid si'
  pub others : (t : Ptr) → ((i : ℕ) → c ≤ i → i < n → thread_of si i ≢ t) → threads' t ≡ threads t
  pub awoken :
      (i : ℕ)
      → c ≤ i
      → i < n
      → ((j : ℕ) → i < j → j < n → thread_of si j ≢ thread_of si i)
      → IsAwake si (si.pause_queue i) time (threads' (thread_of si i))

woken-IsValid :
    (si : SchedulerInfo) (tr : Ptr)
    → si.sched_count < si.sched_size
    → IsValid si
    → IsValid (woken si tr)
woken-IsValid si tr room v = ground arith

ready-woken : (si : SchedulerInfo) (tr : Ptr) → ready (woken si tr) ≡ ready si ++ (tr ∷ [])
unfolding ready
ready-woken si tr =
    rw (add-one, tabulate-suc si.sched_count)
      (ap₂ (λ xs x. xs ++ (x ∷ [])) (tabulate_ext si.sched_count _ _ (λ i lt. ground arith))
        (ground arith))

stopped :
    (k c time : ℕ) (si : SchedulerInfo) (threads : Threads)
    → si.pause_count ≡ k
    → (0 < k → time < request_of si c)
    → IsValid si
    → Woken c c time si threads si threads
unfolding tabulate
stopped k c time si threads e later v = record {
  from = omega arith;
  left = refl;
  same = (refl, refl);
  due = λ i l h. absurd (omega arith);
  not_due = λ h. later (omega arith);
  queue = sym (
      ap (λ n. ready si ++ tabulate n (λ i. thread_of si (c + i)))
        (let none_left : c - c ≡ 0 = omega arith in none_left)
      ∙ append-nil (ready si));
  valid = v;
  others = λ t h. refl;
  awoken = λ i l h. absurd (omega arith);
}

module _ (c n time : ℕ) (si : SchedulerInfo) (threads : Threads) (si' : SchedulerInfo)
    (threads' : Threads) (some_left : 0 < si.pause_count) (now : request_of si c ≤ time)
    (w : Woken
      (c + 1)
      n
      time
      (woken si (thread_of si c))
      (awake si (si.pause_queue c) time threads)
      si'
      threads') where
  queue_more : ready si' ≡ ready si ++ tabulate (n - c) (λ i. thread_of si (c + i))
  queue_more =
      let rest = tabulate (n - (c + 1)) (λ i. thread_of si (c + 1 + i)) in
      let first : thread_of si (c + 0) ≡ thread_of si c = ap (thread_of si) (omega arith) in
      let steps : n - c ≡ suc (n - (c + 1)) = omega (arith, w.from) in
      w.queue
      ∙ ap (λ xs. xs ++ rest) (ready-woken si (thread_of si c))
      ∙ append_assoc (ready si) (thread_of si c ∷ []) rest
      ∙ ap (λ xs. ready si ++ xs)
          (sym (
            ap (λ k. tabulate k (λ i. thread_of si (c + i))) steps
            ∙ tabulate-head (n - (c + 1)) (λ i. thread_of si (c + i))
            ∙ ap₂ ◌∷◌ first
                (tabulate_ext (n - (c + 1)) _ _ (λ i lt. ap (thread_of si) (omega arith)))))

  others_more : (t : Ptr) → ((i : ℕ) → c ≤ i → i < n → thread_of si i ≢ t) → threads' t ≡ threads t
  others_more t differ =
      w.others t (λ i l h. differ i (omega arith) h)
      ∙ ground (arith, differ c (omega arith) (omega (arith, w.from)))

  awoken_more :
      (i : ℕ)
      → c ≤ i
      → i < n
      → ((j : ℕ) → i < j → j < n → thread_of si j ≢ thread_of si i)
      → IsAwake si (si.pause_queue i) time (threads' (thread_of si i))
  awoken_more i l h last = elim (ℕ_discrete i c) [
    | yes e ↦
        let same : threads' (thread_of si i)
            ≡ awake si (si.pause_queue c) time threads (thread_of si i) =
          w.others (thread_of si i) (λ j lj hj. last j (omega arith) hj) in
        ground (arith, same)
    | no ne ↦ w.awoken i (omega arith) h last
  ]

  one_more : Woken c n time si threads si' threads'
  one_more = record {
    from = omega (arith, w.from);
    left = omega (arith, w.left);
    same = w.same;
    due = λ i l h. elim (ℕ_discrete i c) [ yes e ↦ rw e now | no ne ↦ w.due i (omega arith) h ];
    not_due = w.not_due;
    queue = queue_more;
    valid = w.valid;
    others = others_more;
    awoken = awoken_more;
  }

-- One round and the rounds behind it.
wake_now :
    (k c time : ℕ) (si : SchedulerInfo) (threads : Threads) (n : ℕ) (si' : SchedulerInfo)
    (threads' : Threads)
    → leb (request_of si c) time ≡ true
    → (si.sched_count == si.sched_size) ≡ false
    → wake k (c + 1) time (woken si (thread_of si c)) (awake si (si.pause_queue c) time threads)
      ≡ ok (n, si', threads')
    → wake (suc k) c time si threads ≡ ok (n, si', threads')
unfolding wake
wake_now k c time si threads n si' threads' now free run = rw (now, wake) (rw (free, wake) run)

wake_later :
    (k c time : ℕ) (si : SchedulerInfo) (threads : Threads)
    → leb (request_of si c) time ≡ false
    → wake (suc k) c time si threads ≡ ok (c, si, threads)
unfolding wake
wake_later k c time si threads later = rw (later, wake)

pub wake-Woken :
    (k c time : ℕ) (si : SchedulerInfo) (threads : Threads)
    → si.pause_count ≡ k
    → si.sched_count + k ≤ si.sched_size
    → IsValid si
    → (n : ℕ) × (si' : SchedulerInfo) × (threads' : Threads) × (wake k c time si threads
        ≡ ok (n, si', threads'))
      × Woken c n time si threads si' threads'
unfolding wake
wake-Woken zero c time si threads e room v =
    (c, si, threads, refl, stopped zero c time si threads e (λ h. absurd (omega arith)) v)
wake-Woken (suc k) c time si threads e room v = elim (Bool-cases (leb (request_of si c) time)) [
  | inr later ↦ (
    c,
    si,
    threads,
    wake_later k c time si threads later,
    stopped (suc k) c time si threads e (λ h. ground arith) v,
  )
  | inl now ↦
      let (n, si', threads', run, w) =
        wake-Woken k (c + 1) time (woken si (thread_of si c))
          (awake si (si.pause_queue c) time threads) (omega arith) (omega arith)
          (woken-IsValid si (thread_of si c) (omega arith) v) in
      (
        n,
        si',
        threads',
        wake_now k c time si threads n si' threads' now (ground arith) run,
        one_more c n time si threads si' threads' (omega arith) (ground arith) w,
      )
]
