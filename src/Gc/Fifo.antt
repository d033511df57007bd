-- ===== src/Gc/Fifo.antt =====
-- The garbage collector deletes in the order of the requests, and refuses rather than forget one.
use racoon.Base.{
  suc, ◌+◌, ◌-◌, ◌%◌, ◌≤◌, ◌<◌, ◌≡◌, ◌==◌, true, false, ◌≢◌, ap, ap₂, ◌∙◌, List, [], ◌∷◌, ◌++◌,
  none, some, ◌⊎◌, inl, inr, ok, halt, tabulate, tabulate_ext, tabulate-suc, tabulate-head, arith,
  ℕ_discrete, success, failure,
}
use native.Mathlib.Numerals.{add-one}
use racoon.Gc.{GcInfo, Qdata, gc_queue, gc_has_work, gc_peek, gc_next}

pub record IsValid (q : Qdata) : Type 0 where
  pub pos_in : q.pos < 32
  pub size_in : q.size ≤ 32

-- What waits, the next one first.
unfoldable pub pending : Qdata → List GcInfo
pending q = tabulate q.size (λ i. q.info ((q.pos + i) % 32))

module _ (q : Qdata) (v : IsValid q) where
  abbrev queued : GcInfo → Qdata
  queued x = (gc_queue q x).1

  queued_last : (x : GcInfo) → q.size < 32 → pending (gc_queue q x).1 ≡ pending q ++ (x ∷ [])
  unfolding pending gc_queue
  queued_last x room =
      let few : (q.size == 32) ≡ false = ground arith in
      rw (few, add-one, tabulate-suc q.size)
        (ap₂ (λ xs y. xs ++ (y ∷ []))
          (tabulate_ext q.size _ _ (λ i lt.
            let other : (q.pos + i) % 32 ≢ (q.pos + q.size) % 32 = omega (arith, v) in
            ground arith))
          (ground arith))

  -- `gc_queue` puts the ids last, or, with 32 pairs waiting, answers -1 and leaves the queue.
  pub gc_queue_lem :
      (x : GcInfo)
      → IsValid (gc_queue q x).1
        × ((((gc_queue q x).0 ≡ success) × (pending (gc_queue q x).1 ≡ pending q ++ (x ∷ [])))
            ⊎ (((gc_queue q x).0 ≡ failure)
                × (q.size ≡ 32)
                × (pending (gc_queue q x).1 ≡ pending q)))
  unfolding gc_queue
  gc_queue_lem x = elim (ℕ_discrete q.size 32) [
    | yes full ↦
        let e : (q.size == 32) ≡ true = ground arith in (ground (arith, v), inr (rw e, full, rw e))
    | no room ↦
        let e : (q.size == 32) ≡ false = ground arith in
        (ground (arith, v), inl (rw e, queued_last x (omega (arith, v, room))))
  ]

  -- The collector works exactly while something waits: it sees the first pair, and stepping over it
  -- leaves the others in their order; with nothing waiting, stepping stops the machine.
  pub gc_next_lem :
      ((pending q ≡ []) × (gc_has_work q ≡ failure) × (gc_peek q ≡ none) × (gc_next q ≡ halt))
      ⊎ ((x : GcInfo) × (q' : Qdata) × (gc_has_work q ≡ success)
          × (gc_peek q ≡ some x)
          × (gc_next q ≡ ok q')
          × (pending q ≡ x ∷ pending q')
          × IsValid q')
  unfolding gc_has_work gc_peek gc_next pending tabulate
  gc_next_lem = elim (ℕ_discrete q.size 0) [
    | yes e ↦ inl (
      ap (λ n. tabulate n (λ i. q.info ((q.pos + i) % 32))) e,
      ground arith,
      ground arith,
      ground arith,
    )
    | no ne ↦
        let more : q.size ≡ suc (q.size - 1) = omega arith in
        inr (
          q.info q.pos,
          record q { pos = (q.pos + 1) % 32; size = q.size - 1 },
          ground arith,
          ground arith,
          ground arith,
          ap (λ n. tabulate n (λ i. q.info ((q.pos + i) % 32))) more
              ∙ tabulate-head (q.size - 1) (λ i. q.info ((q.pos + i) % 32))
              ∙ ap₂ ◌∷◌ (ap q.info (omega (arith, v)))
                  (tabulate_ext (q.size - 1) _ _ (λ i lt. ap q.info (omega (arith, v)))),
          ground (arith, v),
        )
  ]
