-- ===== src/Ds/Iqueue/Tests.antt =====
-- Runs of kernel/ds/iqueue.c on small arrays, and its theorems at these inputs.
use racoon.Base.{
  ℕ, zero, suc, ◌/◌, ◌≡◌, refl, List, [], ◌∷◌, arith, length, ok, fault, Option, some, load, store,
  test_bit, tabulate,
}
use racoon.Ds.Iqueue.{Iqueue, copy_queue, put, add, next, shrink, count_of, no_grow, no_shrink}
use racoon.Ds.Iqueue.Invariant.{IsValid, contents}
use racoon.Ds.Iqueue.Add.{IsSized}
use racoon.Ds.Iqueue.Run.{Op, enqueue, dequeue, Trace, run, InOrder, run-InOrder}
use racoon.Ds.Iqueue.Overflow.{next_overflow}

-- Memory that is always granted, filled with 7.
sevens : ℕ → List ℕ
sevens zero = []
sevens (suc n) = 7 ∷ sevens n

length-sevens : (n : ℕ) → length (sevens n) ≡ n
unfolding sevens
length-sevens zero = refl
length-sevens (suc n) = omega (arith, length-sevens n)

heap : ℕ → Option (List ℕ)
unfolding sevens
heap bytes = some (sevens (bytes / 4))

heap-IsSized : IsSized heap
unfolding heap
heap-IsSized bytes mem e = ground (arith, length-sevens (bytes / 4))

-- Two ints, 5 and 6, round the end of an array of two.
abbrev full : Iqueue
full = record { initial = 2; grow = 2; size = 2; start = 1; count = 2; queue = 6 ∷ 5 ∷ [] }

full-IsValid : IsValid full
full-IsValid = record {
  storage = refl;
  count_in = omega arith;
  start_in = λ h. omega arith;
  start_le = omega arith;
  small = omega arith;
  base = omega arith;
  steps = λ h. (refl, refl);
}

contents-full : contents full ≡ 5 ∷ 6 ∷ []
unfolding contents tabulate
contents-full = refl

abbrev script : List Op
script = enqueue 9 0 ∷ dequeue 0 ∷ dequeue 0 ∷ enqueue 8 0 ∷ dequeue 0 ∷ dequeue 0 ∷ dequeue 0 ∷ []

run-script :
    (iq : Iqueue) × (run heap script full ≡ ok (9 ∷ 8 ∷ [], 5 ∷ 6 ∷ 9 ∷ 8 ∷ [], iq)) × (iq.size ≡ 2)
unfolding run add next shrink put copy_queue heap load store count_of no_grow no_shrink test_bit
run-script = (_, refl, refl)

run-InOrder_example : (t : Trace) × (run heap script full ≡ ok t) × InOrder full t
run-InOrder_example = run-InOrder heap heap-IsSized script full full-IsValid (omega arith)

-- First size 3, step 2: five slots, of which five are used.
abbrev uneven : Iqueue
uneven = record {
  initial = 3;
  grow = 2;
  size = 5;
  start = 0;
  count = 5;
  queue = 1 ∷ 2 ∷ 3 ∷ 4 ∷ 5 ∷ [];
}

next_overflow_example : next heap uneven 0 ≡ fault
unfolding no_shrink test_bit heap
next_overflow_example =
    next_overflow heap uneven 0 (7 ∷ 7 ∷ 7 ∷ []) heap-IsSized refl (omega arith) (omega arith)
      (omega arith) (omega arith) refl (omega arith) (omega arith) refl (omega arith) refl
