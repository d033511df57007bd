-- ===== src/Sched/Threads/States.antt =====
-- What a change of a thread's state does to the run queues.
use racoon.Base.{
  ℕ, ◌≡◌, ◌≢◌, ◌<◌, refl, ◌++◌, [], ◌∷◌, none, some, ok, arith, false, Status, success, failure,
  ◌⊎◌, inl, inr, subst, ap, sym, ◌∙◌,
}
use racoon.Sched.State.{Ptr, Threads, SchedulerInfo, thread_running, thread_dormant}
use racoon.Sched.RunQueue.{is_thread, sub_queue, sub_dequeue, remove_last}
use racoon.Sched.RunQueue.Request.{IsQuiet, remove_last_lem}
use racoon.Sched.RunQueue.Invariant.{IsValid, ready, IsReady, Removed}
use racoon.Sched.RunQueue.Dequeue.{sub_queue_lem, sub_dequeue_lem}
use racoon.Sched.Threads.{
  Machine, home, queue, dequeue, change_state, set_thread_state, with_cpu, with_sched, with_state,
  requested, cpu_sched,
}

-- The other threads and the schedulers of the other CPUs are the same.
abbrev pub IsElsewhere : Machine → Machine → ℕ → Ptr → Type 0
IsElsewhere m m' id tr =
    ((t : Ptr) → t ≢ tr → m'.threads t ≡ m.threads t) × ((i : ℕ) → i ≢ id → m'.sched i ≡ m.sched i)

module _ (me : ℕ) (m : Machine) (tr : Ptr) (id state : ℕ) where
  dequeue_run :
      (si : SchedulerInfo)
      → (m.threads tr).cpu ≡ some id
      → id < m.cpu_count
      → sub_dequeue (m.sched me).current_thread (m.sched id) tr ≡ ok si
      → dequeue me m tr ≡ ok (with_cpu (with_sched m id si) tr none)
  unfolding dequeue cpu_sched
  dequeue_run si on known run = ground (arith, on, known, run)

  stop_run :
      (left : Machine)
      → (m.threads tr).state ≡ thread_running
      → state ≢ thread_running
      → is_thread (m.sched me).current_thread tr ≡ false
      → dequeue me m tr ≡ ok left
      → set_thread_state me m tr state ≡ ok (with_state left tr state)
  unfolding set_thread_state change_state
  stop_run left running stop other run = ground (arith, running, stop, other, run)

  stopped :
      (si : SchedulerInfo)
      → set_thread_state me m tr state
        ≡ ok (with_state (with_cpu (with_sched m id si) tr none) tr state)
      → IsValid si
      → Removed tr (ready (m.sched id)) (ready si)
      → (m' : Machine) × (set_thread_state me m tr state ≡ ok m')
        × ((m'.threads tr).state ≡ state)
        × ((m'.threads tr).cpu ≡ none)
        × IsValid (m'.sched id)
        × Removed tr (ready (m.sched id)) (ready (m'.sched id))
        × IsElsewhere m m' id tr
  stopped si run valid removed =
      let here : si ≡ (with_sched m id si).sched id = ground arith in
      (
        with_state (with_cpu (with_sched m id si) tr none) tr state,
        run,
        ground arith,
        ground arith,
        subst IsValid here valid,
        subst (λ s. Removed tr (ready (m.sched id)) (ready s)) here removed,
        ((λ t differ. ground arith), (λ i differ. ground arith)),
      )

  -- Where `id` is one of the CPUs and its scheduler is well-formed, a running thread that is ready on
  -- it and is not the caller can be stopped by any other: it leaves that run queue and no other, has the new state and belongs to no CPU; no other thread changes.
  pub set_thread_state_stop :
      (m.threads tr).state ≡ thread_running
      → state ≢ thread_running
      → is_thread (m.sched me).current_thread tr ≡ false
      → (m.threads tr).cpu ≡ some id
      → id < m.cpu_count
      → IsValid (m.sched id)
      → IsReady (m.sched id) tr
      → (m' : Machine) × (set_thread_state me m tr state ≡ ok m')
        × ((m'.threads tr).state ≡ state)
        × ((m'.threads tr).cpu ≡ none)
        × IsValid (m'.sched id)
        × Removed tr (ready (m.sched id)) (ready (m'.sched id))
        × IsElsewhere m m' id tr
  set_thread_state_stop running stop other on known v r =
      let (si, run, valid, removed) =
        sub_dequeue_lem (m.sched me).current_thread (m.sched id) tr v other r in
      stopped si (stop_run _ running stop other (dequeue_run si on known run)) valid removed

  home-with_state : home (with_state m tr state) tr ≡ home m tr
  unfolding home
  home-with_state = ground arith

  queue_run :
      (si : SchedulerInfo)
      → home m tr ≡ ok id
      → id < m.cpu_count
      → (m.threads tr).cpu ≡ none
      → sub_queue (m.sched id) tr ≡ ok (success, si)
      → queue (with_state m tr state) tr
        ≡ ok (success, with_sched (with_cpu (with_state m tr state) tr (some id)) id si)
  unfolding queue cpu_sched
  queue_run si to known free run = ground (arith, to, known, home-with_state, free, run)

  start_run :
      (entered : Machine)
      → (m.threads tr).state ≢ thread_running
      → ((m.threads tr).state ≢ thread_dormant) ⊎ ((m.threads tr).duration ≡ 0)
      → is_thread (m.sched me).current_thread tr ≡ false
      → state ≡ thread_running
      → queue (with_state m tr state) tr ≡ ok (success, entered)
      → set_thread_state me m tr state ≡ ok entered
  unfolding set_thread_state change_state
  start_run entered stopped timeless other running run =
      ground (arith, stopped, timeless, other, running, run)

  abbrev asking : SchedulerInfo
  asking = record (m.sched me) { requesting_thread = some tr; requesting_state = some state }

  asked : asking ≡ (requested m me tr state).sched me
  asked = ground arith

  request_run :
      (m.threads tr).state ≡ thread_running
      → state ≢ thread_running
      → (m.sched me).current_thread ≡ some tr
      → set_thread_state me m tr state ≡ ok (requested m me tr state)
  unfolding set_thread_state
  request_run running stop mine = ground (arith, running, stop, mine)

  -- Where its scheduler is well-formed, a running thread that runs on this CPU and is in its run
  -- queue only leaves a request, which `remove_last` honours when
  -- the scheduler has it back: the thread leaves the run queue, has the new state and belongs to no
  -- CPU.
  pub set_thread_state_self :
      (m.threads tr).state ≡ thread_running
      → state ≢ thread_running
      → (m.sched me).current_thread ≡ some tr
      → IsValid (m.sched me)
      → IsReady (m.sched me) tr
      → (m' : Machine) × (si : SchedulerInfo) × (threads : Threads) × (set_thread_state me m tr
            state
          ≡ ok m')
        × (m'.threads ≡ m.threads)
        × (ready (m'.sched me) ≡ ready (m.sched me))
        × (remove_last (m'.sched me) m'.threads ≡ ok (si, threads))
        × IsValid si
        × IsQuiet si
        × Removed tr (ready (m.sched me)) (ready si)
        × ((threads tr).state ≡ state)
        × ((threads tr).cpu ≡ none)
  unfolding ready
  set_thread_state_self running stop mine v r =
      let (si, threads, run, valid, quiet, removed, changed, off, others) =
        remove_last_lem asking m.threads tr state asking-IsValid refl refl r in
      (
        requested m me tr state,
        si,
        threads,
        request_run running stop mine,
        refl,
        ap ready (sym asked),
        subst (λ s. remove_last s m.threads ≡ ok (si, threads)) asked run,
        valid,
        quiet,
        removed,
        changed,
        off,
      )
    where
      asking-IsValid : IsValid asking
      asking-IsValid = ground (arith, v)

  started :
      (rc : Status) (si : SchedulerInfo)
      → sub_queue (m.sched id) tr ≡ ok (rc, si)
      → (m.sched id).sched_count < (m.sched id).sched_size
      → ((rc ≡ success) × (ready si ≡ ready (m.sched id) ++ (tr ∷ [])))
        ⊎ ((rc ≡ failure)
            × ((m.sched id).sched_count ≡ (m.sched id).sched_size)
            × (ready si ≡ ready (m.sched id)))
      → (sub_queue (m.sched id) tr ≡ ok (success, si))
        × (ready si ≡ ready (m.sched id) ++ (tr ∷ []))
  started rc si run room (inl (done, list)) =
      (subst (λ r. sub_queue (m.sched id) tr ≡ ok (r, si)) done run, list)
  started rc si run room (inr (failed, full, list)) = absurd (omega (arith, full, room))

  -- Setting a stopped thread that no CPU has to running, where it is not paused with a time, puts it
  -- last into the run queue of the CPU it is for, if that CPU is there, its scheduler is well-formed and
  -- the queue has room; no other thread or scheduler changes.
  pub set_thread_state_start :
      (m.threads tr).state ≢ thread_running
      → ((m.threads tr).state ≢ thread_dormant) ⊎ ((m.threads tr).duration ≡ 0)
      → is_thread (m.sched me).current_thread tr ≡ false
      → state ≡ thread_running
      → home m tr ≡ ok id
      → id < m.cpu_count
      → (m.threads tr).cpu ≡ none
      → IsValid (m.sched id)
      → (m.sched id).sched_count < (m.sched id).sched_size
      → (m' : Machine) × (set_thread_state me m tr state ≡ ok m')
        × ((m'.threads tr).state ≡ state)
        × ((m'.threads tr).cpu ≡ some id)
        × IsValid (m'.sched id)
        × (ready (m'.sched id) ≡ ready (m.sched id) ++ (tr ∷ []))
        × IsElsewhere m m' id tr
  set_thread_state_start stopped timeless other running to known free v room =
      let (rc, si, run, valid, result) = sub_queue_lem (m.sched id) tr v in
      let (done, list) = started rc si run room result in
      let here : si ≡ (with_sched m id si).sched id = ground arith in
      (
        with_sched (with_cpu (with_state m tr state) tr (some id)) id si,
        start_run _ stopped timeless other running (queue_run si to known free done),
        ground arith,
        ground arith,
        subst IsValid here valid,
        ap ready (sym here) ∙ list,
        ((λ t differ. ground arith), (λ i differ. ground arith)),
      )
