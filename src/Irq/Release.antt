-- ===== src/Irq/Release.antt =====
-- The copy of the stubs when a thread releases an interrupt.
use racoon.Base.{
  ℕ, suc, ◌+◌, ◌-◌, ◌^◌, ◌≤◌, ◌<◌, ◌≡◌, ◌⊎◌, inl, inr, dec_lt, refl, arith, true, false, some, ◌==◌,
  leb, if◌then◌else◌, List, [], ◌∷◌, length, length-set, sub32, store-ok, store-fault, set, fault,
}
use racoon.Irq.{Ptr, IrqStub, IrqHook, IrqThread, copy_others, stubs_without, release_irq}

-- The number of stubs of a thread.
unfoldable pub stubs_of : Ptr → List IrqStub → ℕ
stubs_of tr [] = 0
stubs_of tr (stub ∷ stubs) = (if stub.tr == tr then 1 else 0) + stubs_of tr stubs

split_le : (m n : ℕ) → m ≤ n → (m < n) ⊎ (m ≡ n)
split_le m n h = elim (dec_lt m n) [ yes l ↦ inl l | no l ↦ inr (omega (arith, l, h)) ]

-- Without a stub of the thread, more stubs are copied than there is room for.
copy_others-fault :
    (tr : Ptr) (old : List IrqStub) (i : ℕ) (stubs : List IrqStub)
    → stubs_of tr old ≡ 0
    → i ≤ length stubs
    → i + length old ≡ suc (length stubs)
    → copy_others tr old i 0 stubs ≡ fault
unfolding copy_others stubs_of
copy_others-fault tr [] i stubs none_there few room = ground (arith, few, room)
copy_others-fault tr (stub ∷ old) i stubs none_there few room =
    let other : (stub.tr == tr) ≡ false = ground (arith, none_there) in
    let start : i - 0 ≡ i = omega arith in
    elim (split_le i (length stubs) few) [
      | inl inside ↦
          rw (other, start, store-ok stubs i stub inside)
            (copy_others-fault tr old (i + 1) (set stubs i stub) (ground (arith, none_there))
              (omega (arith, inside, length-set stubs i stub))
              (omega (arith, room, length-set stubs i stub)))
      | inr full ↦ rw (other, start, store-fault stubs i stub (omega (arith, full))) refl
    ]

-- A thread that handles no interrupt, of which two threads or more handle one, writes behind the new
-- array when it releases that interrupt.
pub release_irq-fault :
    (process_of : Ptr → Ptr) (stubs : List IrqStub) (tr : Ptr) (t : IrqThread) (irq : ℕ)
    (handler : IrqHook)
    → irq < 24
    → 2 ≤ handler.count
    → handler.count < 2 ^ 31
    → length handler.stubs ≡ handler.count
    → handler.count ≡ suc (length stubs)
    → stubs_of tr handler.stubs ≡ 0
    → release_irq process_of true (some stubs) tr t irq handler ≡ fault
unfolding release_irq stubs_without
release_irq-fault process_of stubs tr t irq handler valid two bound len room none_there =
    let in_range : leb 24 irq ≡ false = ground (arith, valid) in
    let several : (sub32 handler.count 1 == 0) ≡ false = ground (arith, two, bound) in
    let copied =
      copy_others-fault tr handler.stubs 0 stubs none_there (omega arith)
        (omega (arith, len, room)) in
    rw (in_range, several, copied) refl
