-- ===== src/Ds/Iqueue/Overflow.antt =====
-- What `iqueue_next` does where the step by which the array grows does not divide its first size.
use racoon.Base.{
  ℕ, ◌+◌, ◌-◌, ◌*◌, ◌%◌, ◌^◌, ◌≤◌, ◌<◌, ◌≡◌, refl, List, length, fault, load-ok, add32, sub32, ltb,
  ◌&&◌, not, ◌==◌, true, false, Option, some, u32, arith,
}
use native.Mathlib.Nat.{mod-lt}
use racoon.Ds.Iqueue.{Iqueue, next, shrink, no_shrink}
use racoon.Ds.Iqueue.Invariant.{copy_queue-fault}
use racoon.Ds.Iqueue.Add.{IsSized}

-- Take an int, without IQUEUE_NOSHRINK among the flags, from a queue with sound storage whose array
-- of fewer than 2^30 ints is larger than at first, whose step is not 0 and not above its size, and
-- whose ints, less the one taken, are a multiple of the step and more than the array less the step has
-- room for: when there is memory for the smaller array, the copy writes past its end.
pub next_overflow :
    (kmalloc : ℕ → Option (List ℕ)) (iq : Iqueue) (iqflags : ℕ) (new_queue : List ℕ)
    → IsSized kmalloc
    → length iq.queue ≡ iq.size
    → iq.start < iq.size
    → iq.size < 2 ^ 30
    → iq.count ≤ iq.size
    → 0 < iq.grow
    → no_shrink iqflags ≡ false
    → iq.initial < iq.size
    → iq.grow ≤ iq.size
    → (iq.count - 1) % iq.grow ≡ 0
    → iq.size < iq.count - 1 + iq.grow
    → kmalloc (u32 (4 * (iq.size - iq.grow))) ≡ some new_queue
    → next kmalloc iq iqflags ≡ fault
unfolding next shrink
next_overflow kmalloc iq iqflags new_queue sized storage start small full g keep above step due
      tight mem =
    let count : sub32 iq.count 1 ≡ iq.count - 1 = omega arith in
    let size : sub32 iq.size iq.grow ≡ iq.size - iq.grow = omega arith in
    let positive : ltb 0 iq.count ≡ true = ground arith in
    let wanted : (not (iq.grow == 0) && not (no_shrink iqflags)) ≡ true = ground arith in
    let shrinks : (ltb iq.initial iq.size && (sub32 iq.count 1 % iq.grow == 0)) ≡ true =
      rw count (ground arith) in
    let got : kmalloc (u32 (4 * sub32 iq.size iq.grow)) ≡ some new_queue = rw size mem in
    let below : add32 iq.start 1 % iq.size < iq.size = mod-lt _ (omega arith) in
    let long : length new_queue ≡ iq.size - iq.grow =
      omega (arith, sized (u32 (4 * (iq.size - iq.grow))) new_queue mem) in
    rw (positive, load-ok iq.queue iq.start 0 (omega arith), wanted, shrinks, got)
      (rw
        (copy_queue-fault
          (record iq { start = add32 iq.start 1 % iq.size; count = sub32 iq.count 1 })
          (sub32 iq.count 1) 0 new_queue (omega arith) (omega arith)
          (record { storage = storage; bounds = omega arith; non_empty = λ h. omega arith }))
        refl)
