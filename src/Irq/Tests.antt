-- ===== src/Irq/Tests.antt =====
-- Interrupts with two or three handlers.
use racoon.Base.{
  minus_one, ℕ, ◌≡◌, refl, arith, true, none, some, List, [], ◌∷◌, success, ok, fault, load, store,
}
use racoon.Irq.{
  Ptr, IrqStub, IrqHook, IrqThread, waits_irq, suspended, queued, irq_handler, release_irq,
  as_it_is, masked,
}
use racoon.Irq.Release.{stubs_of, release_irq-fault}
use racoon.Irq.Rounds.{IsReady, reject_all, in_turn, thread_at, reject_all-irq_handler}

abbrev stub : Ptr → IrqStub
stub tr = record { tr = tr; ack = 0; nop = 0 }

abbrev hook : ℕ → List IrqStub → IrqHook
hook count stubs = record { raised = 0; index = 0; last = 1; count = count; stubs = stubs }

abbrev three : IrqHook
three = hook 3 (stub 70 ∷ stub 80 ∷ stub 90 ∷ [])

abbrev thread : IrqThread
thread = record { tid = 2; process = 5; state = waits_irq; irq = 4; cpu_affinity = 0 }

abbrev freed : List IrqStub
freed = stub 0 ∷ stub 0 ∷ []

-- IrqThread 80 was the last to accept: the order is 80, 90, 70.
order : in_turn three 3 0 ≡ (80 ∷ 90 ∷ 70 ∷ [])
unfolding in_turn
order = refl

-- When thread 90 leaves, which is at position 2 and accepted last, `last` moves to 3.
abbrev last_moves : IrqHook
last_moves = record three { last = 2 }

wrong_way :
    release_irq (λ p. 5) true (some freed) 90 thread 4 last_moves
    ≡ ok (
      success,
      record thread { state = suspended; irq = minus_one },
      record (hook 2 (stub 70 ∷ stub 80 ∷ [])) { last = 3 },
      as_it_is,
    )
unfolding release_irq store load
wrong_way = refl

-- The next interrupt then reads behind the array.
after_release : irq_handler true 4 (record (hook 2 (stub 70 ∷ stub 80 ∷ [])) { last = 3 }) ≡ fault
unfolding irq_handler load
after_release = refl

-- A thread of the same process takes the only handler away.
other_thread :
    release_irq (λ p. 5) true none 99 thread 4 (hook 1 (stub 70 ∷ []))
    ≡ ok (
      success,
      record thread { state = suspended; irq = minus_one },
      record (hook 0 []) { last = 2 },
      masked,
    )
unfolding release_irq store load
other_thread = refl

three-IsReady : IsReady three
three-IsReady = record {
  fits = refl;
  some_handler = omega arith;
  few = omega arith;
  last_fits = omega arith;
}

reject_all_example :
    (raised : IrqHook) × (handler' : IrqHook) × (irq_handler true 4 three
      ≡ ok (raised, queued (thread_at three three.last) ∷ []))
    × (reject_all 3 4 (thread_at three three.last) raised ≡ ok (handler', in_turn three 3 0))
reject_all_example =
    reject_all-irq_handler true 3 4 three (omega arith) (omega arith) three-IsReady (omega arith)

release_irq_example : release_irq (λ p. 5) true (some freed) 99 thread 4 three ≡ fault
unfolding stubs_of
release_irq_example =
    release_irq-fault (λ p. 5) freed 99 thread 4 three (omega arith) (omega arith) (omega arith)
      refl refl refl
