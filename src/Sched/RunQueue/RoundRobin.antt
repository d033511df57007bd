-- ===== src/Sched/RunQueue/RoundRobin.antt =====
-- The choice of `scheduler` goes round the run queue.
use racoon.Base.{ℕ, zero, suc, ◌+◌, ◌-◌, ◌%◌, ◌<◌, ◌≡◌, ap, sym, ◌∙◌, arith, dec_lt}
use native.Mathlib.Nat.{mod-lt, mod-eq_of_lt, mod-eq-sub-mod, mod-add-mod}
use racoon.Sched.State.{Ptr, SchedulerInfo}
use racoon.Sched.RunQueue.{pick}
use racoon.Sched.RunQueue.Invariant.{IsValid, IsReady}

-- The thread chosen after `k` earlier choices, while the queue does not change.
pub chosen : ℕ → SchedulerInfo → Ptr
chosen zero si = (pick si).0
chosen (suc k) si = chosen k (pick si).1

chosen_lem :
    (k : ℕ) (si : SchedulerInfo)
    → si.position < si.sched_count
    → chosen k si ≡ si.sched_queue ((si.position + k) % si.sched_count)
unfolding chosen pick
chosen_lem zero si h =
    ap si.sched_queue (sym (ap (λ t. t % si.sched_count) (omega arith) ∙ mod-eq_of_lt h))
chosen_lem (suc k) si h =
    chosen_lem k (pick si).1 (mod-lt _ (omega arith))
    ∙ ap si.sched_queue (
        mod-add-mod (si.position + 1) si.sched_count k ∙ ap (λ t. t % si.sched_count) (omega arith))

-- No ready thread starves: while the queue does not change, each thread in it is chosen within as
-- many choices as there are threads.
pub chosen_all :
    (si : SchedulerInfo) (tr : Ptr)
    → IsValid si
    → IsReady si tr
    → (k : ℕ) × (k < si.sched_count) × (chosen k si ≡ tr)
chosen_all si tr v (i, lt, e) =
    let start : si.position < si.sched_count = v.position_in (omega arith) in
    elim (dec_lt i si.position) [
      | yes behind ↦ (
        i + si.sched_count - si.position,
        omega arith,
        chosen_lem (i + si.sched_count - si.position) si start
            ∙ ap si.sched_queue (
                ap (λ t. t % si.sched_count) (omega arith)
                ∙ mod-eq-sub-mod {n = i + si.sched_count} (omega arith)
                ∙ ap (λ t. t % si.sched_count) (omega arith)
                ∙ mod-eq_of_lt lt)
            ∙ e,
      )
      | no ahead ↦ (
        i - si.position,
        omega arith,
        chosen_lem (i - si.position) si start
            ∙ ap si.sched_queue (ap (λ t. t % si.sched_count) (omega arith) ∙ mod-eq_of_lt lt)
            ∙ e,
      )
    ]
