-- ===== src/Ds/Aqueue/Lost.antt =====
-- `aqueue_add` does not advance `last_position`.
use racoon.Base.{
  true, ℕ, ◌+◌, ◌≡◌, ◌<◌, refl, List, [], ◌∷◌, Option, some, Option-cases, inl, inr, ◌⊎◌, Outcome,
  ok, halt, ◌>>=◌, arith, Status, success, failure, u32, ◌*◌, ◌%◌, ◌/◌, update, ap, ◌∙◌,
}
use native.Mathlib.Nat.{zero-mod, zero-div}
use racoon.Ds.Aqueue.{
  Page, Aqueue, create, empty_queue, add, next, count_of, write_last, copy_in, with_page,
}

module _ {A : Type 0} (kmalloc : ℕ → Option (Page A)) where
  -- The objects of a list, one call of `aqueue_add` after the other.
  pub add_all : List A → Aqueue A → Outcome (Aqueue A)
  add_all [] aq = ok aq
  add_all (obj ∷ objs) aq = do (_, aq') ← add kmalloc aq obj; add_all objs aq'

  -- No page yet, or one; both positions at the start.
  record IsStuck (count : ℕ) (aq : Aqueue A) : Type 0 where
    pub objects : aq.obj_count ≡ count
    pub at_start : (aq.position ≡ 0) × (aq.last_position ≡ 0)
    pub pages :
        ((aq.pages ≡ 0) × (aq.chain ≡ []))
        ⊎ ((aq.pages ≡ 1) × (page : Page A) × (aq.chain ≡ page ∷ []))

  add-IsStuck :
      (count : ℕ) (aq : Aqueue A) (obj : A)
      → 0 < count
      → IsStuck count aq
      → (rc : Status) × (aq' : Aqueue A) × (add kmalloc aq obj ≡ ok (rc, aq')) × IsStuck count aq'
  unfolding add copy_in write_last
  add-IsStuck count aq obj pos v =
      let slot : aq.last_position % aq.obj_count ≡ 0 =
        ap (λ x. x % aq.obj_count) v.at_start.1 ∙ zero-mod aq.obj_count in
      let div : aq.last_position / aq.obj_count ≡ 0 =
        ap (λ x. x / aq.obj_count) v.at_start.1 ∙ zero-div aq.obj_count in
      elim v.pages [
        | inl (none_yet, empty) ↦
            elim (Option-cases (kmalloc (u32 (4 + aq.obj_count * aq.obj_size)))) [
              | inl no_memory ↦ (failure, aq, ground (arith, slot, div, v), v)
              | inr (page, got) ↦ (
                success,
                record (with_page aq page) { chain = update page 0 obj ∷ [] },
                ground (arith, slot, div, v),
                record {
                  objects = v.objects;
                  at_start = v.at_start;
                  pages = inr (ground (arith, none_yet), update page 0 obj, refl);
                },
              )
            ]
        | inr (one, page, only) ↦ (
          success,
          record aq { chain = update page 0 obj ∷ [] },
          ground (arith, slot, div, v),
          record {
            objects = v.objects;
            at_start = v.at_start;
            pages = inr (one, update page 0 obj, refl);
          },
        )
      ]

  add_all-IsStuck :
      (count : ℕ) (objs : List A) (aq : Aqueue A)
      → 0 < count
      → IsStuck count aq
      → (aq' : Aqueue A) × (add_all objs aq ≡ ok aq') × IsStuck count aq'
  unfolding add_all
  add_all-IsStuck count [] aq pos v = (aq, refl, v)
  add_all-IsStuck count (obj ∷ objs) aq pos v =
      let (rc, aq', e, v') = add-IsStuck count aq obj pos v in
      let (last, run, done) = add_all-IsStuck count objs aq' pos v' in (last, rw e run, done)

  -- However many objects are put into a new queue with room for objects in its pages, every call
  -- returns, yet the queue counts none, and taking one out stops the machine.
  pub add_all-halt :
      (size count : ℕ) (objs : List A)
      → 0 < count
      → (fresh : Aqueue A) × (aq : Aqueue A) × (create true size count ≡ some fresh)
        × (add_all objs fresh ≡ ok aq)
        × (count_of aq ≡ 0)
        × (next aq ≡ halt)
  unfolding create next count_of
  add_all-halt size count objs pos =
      let fresh : IsStuck count (empty_queue size count) = record {
        objects = refl;
        at_start = (refl, refl);
        pages = inl (refl, refl);
      } in
      let (aq, run, v) = add_all-IsStuck count objs (empty_queue size count) pos fresh in
      (empty_queue size count, aq, refl, run, ground (arith, v), ground (arith, v))
