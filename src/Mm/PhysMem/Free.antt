-- ===== src/Mm/PhysMem/Free.antt =====
-- `memory_free` takes back exactly a run of taken pages, and stops the machine on any other run.
use racoon.Base.{
  ℕ, zero, suc, ◌+◌, ◌-◌, ◌*◌, ◌/◌, ◌%◌, ◌^◌, ◌≤◌, ◌<◌, ◌≡◌, refl, ap, sym, subst, ◌≢◌, Outcome,
  fault, ◌∙◌, true, false, if◌then◌else◌, arith, Bool-cases, inl, inr, sub32, ok, halt, ◌==◌,
}
use racoon.Mm.PhysMem.{
  memory_alloc, PhysMem, is_set, to_ptr, page_size, release_page, release_pages, memory_free,
}
use racoon.Mm.PhysMem.Bitmap.{clear_count-le, in_run, is_set-unset_page, clear_count-unset_page}
use racoon.Mm.PhysMem.Invariant.{IsValid, AllSet, release_page-IsValid}
use racoon.Mm.PhysMem.Alloc.{Granted, Allocated, memory_alloc_lem}

-- `t` is `s` with the `n` taken pages from `first` on clear.
pub record Released (s : PhysMem) (n first : ℕ) (t : PhysMem) : Type 0 where
  pub bits :
      (q : ℕ)
      → is_set t.memory_bitmap q ≡ (if in_run first n q then false else is_set s.memory_bitmap q)
  pub area : (t.memory_pages ≡ s.memory_pages) × (t.memory_offset ≡ s.memory_offset)
  pub counter : t.free_pages ≡ s.free_pages + n
  pub valid : IsValid t

release_page-AllSet :
    (k p : ℕ) (s : PhysMem) → AllSet s p (suc k) → AllSet (release_page p s) (p + 1) k
release_page-AllSet k p s c j lt =
    let e : p + 1 + j ≡ p + suc j = omega arith in
    rw e (ground (arith, is_set-unset_page s.memory_bitmap p (p + suc j), c (suc j)))

first_of_run : (k p : ℕ) (s : PhysMem) → AllSet s p (suc k) → is_set s.memory_bitmap p ≡ true
first_of_run k p s c = let e : p + 0 ≡ p = omega arith in rw e at (c 0 (omega arith))

release_pages-Released :
    (k p : ℕ) (s : PhysMem)
    → p + k ≤ s.memory_pages
    → AllSet s p k
    → IsValid s
    → (t : PhysMem) × (release_pages k p s ≡ ok t) × Released s k p t
unfolding release_pages
release_pages-Released zero p s h c v = (
  s,
  refl,
  record { bits = λ q. ground arith; area = (refl, refl); counter = omega arith; valid = v },
)
release_pages-Released (suc k) p s h c v =
    let first = first_of_run k p s c in
    let (t, e, r) =
      release_pages-Released k (p + 1) (release_page p s) (omega arith)
        (release_page-AllSet k p s c) (release_page-IsValid p s (omega arith) first v) in
    (
      t,
      rw first e,
      record {
        bits = λ q. ground (arith, r.bits q, is_set-unset_page s.memory_bitmap p q);
        area = r.area;
        counter = ground (
          arith,
          r.counter,
          clear_count-unset_page s.memory_bitmap s.memory_pages p,
          clear_count-le s.memory_bitmap s.memory_pages,
        );
        valid = r.valid;
      },
    )

release_pages-halt :
    (k p j : ℕ) (s : PhysMem)
    → j < k
    → is_set s.memory_bitmap (p + j) ≡ false
    → release_pages k p s ≡ halt
unfolding release_pages
release_pages-halt zero p j s h c = absurd (omega arith)
release_pages-halt (suc k) p zero s h c = let e : p + 0 ≡ p = omega arith in rw (rw e at c)
release_pages-halt (suc k) p (suc j) s h c =
    let e : p + 1 + j ≡ p + suc j = omega arith in
    let still : is_set (release_page p s).memory_bitmap (p + 1 + j) ≡ false =
      rw e (ground (arith, is_set-unset_page s.memory_bitmap p (p + suc j))) in
    elim (Bool-cases (is_set s.memory_bitmap p)) [
      | inl taken ↦ rw taken (release_pages-halt k (p + 1) j (release_page p s) (omega arith) still)
      | inr free ↦ rw free
    ]

module _ (s : PhysMem) (n first : ℕ) (fits : s.memory_offset + s.memory_pages * page_size < 2 ^ 32)
    (inside : first < s.memory_pages) where
  -- From the address of a page `memory_free` finds the page again.
  memory_free_at : memory_free s n (to_ptr s first) ≡ release_pages n first s
  unfolding memory_free
  memory_free_at =
      let back : sub32 (to_ptr s first) s.memory_offset ≡ first * page_size = omega arith in
      let page : first * page_size / page_size ≡ first = omega arith in
      let aligned : (first * page_size % page_size == 0) ≡ true = ground arith in
      rw (back, page, aligned)

  -- Freeing a run of taken pages of a well-formed area returns: exactly these pages become clear,
  -- the counter grows by their number, and the state is well-formed again.
  pub memory_free_lem :
      first + n ≤ s.memory_pages
      → AllSet s first n
      → IsValid s
      → (t : PhysMem) × (memory_free s n (to_ptr s first) ≡ ok t) × Released s n first t
  memory_free_lem h c v = rw memory_free_at (release_pages-Released n first s h c v)

  -- Freeing a run in which some page is clear already, as a second free does, stops the machine.
  pub memory_free-halt :
      (j : ℕ)
      → j < n
      → is_set s.memory_bitmap (first + j) ≡ false
      → memory_free s n (to_ptr s first) ≡ halt
  memory_free-halt j h c = rw memory_free_at (release_pages-halt n first j s h c)

-- A page that is taken and then released is as it was, a clear one.
undo_bits :
    (s t u : PhysMem) (n block ptr q : ℕ)
    → Granted s n block ptr t
    → Released t n block u
    → is_set u.memory_bitmap q ≡ is_set s.memory_bitmap q
undo_bits s t u n block ptr q g r = elim (Bool-cases (in_run block n q)) [
  | inl within ↦
      let e : block + (q - block) ≡ q = ground arith in
      let clear : is_set s.memory_bitmap q ≡ false =
        rw e at (g.free_run.clear (q - block) (ground arith)) in
      ground (arith, g.bits q, r.bits q)
  | inr outside ↦ ground (arith, g.bits q, r.bits q)
]

-- The run that was granted is freed.
memory_free-Granted :
    (s : PhysMem) (n block ptr : ℕ) (t : PhysMem)
    → s.memory_offset + s.memory_pages * page_size < 2 ^ 32
    → 0 < n
    → Granted s n block ptr t
    → (u : PhysMem) × (memory_free t n ptr ≡ ok u)
      × IsValid u
      × (u.free_pages ≡ s.free_pages)
      × ((q : ℕ) → is_set u.memory_bitmap q ≡ is_set s.memory_bitmap q)
memory_free-Granted s n block ptr t fits pos g =
    let inside = g.free_run.inside in
    let (u, e, r) =
      memory_free_lem t n block (ground (arith, g.area)) (omega (arith, g.area))
        (omega (arith, g.area)) (λ j lt. ground (arith, g.bits (block + j))) g.valid in
    undone u e r
  where
    undone :
        (u : PhysMem)
        → memory_free t n (to_ptr t block) ≡ ok u
        → Released t n block u
        → (u : PhysMem) × (memory_free t n ptr ≡ ok u)
          × IsValid u
          × (u.free_pages ≡ s.free_pages)
          × ((q : ℕ) → is_set u.memory_bitmap q ≡ is_set s.memory_bitmap q)
    undone u e r = (
      u,
      ap (memory_free t n) (ground (arith, g.address, g.area)) ∙ e,
      r.valid,
      omega (arith, r.counter, g.counter),
      λ q. undo_bits s t u n block ptr q g r,
    )

-- In a well-formed state whose area ends below 2^32, what `memory_alloc` returns for a request of a
-- page or more, where it is not NULL, can be freed by its address and size; that gives every page and
-- the counter the state they had before the request.
pub memory_free-memory_alloc :
    (s t : PhysMem) (n ptr : ℕ)
    → IsValid s
    → s.memory_offset + s.memory_pages * page_size < 2 ^ 32
    → 0 < n
    → memory_alloc s n ≡ ok (ptr, t)
    → ptr ≢ 0
    → (u : PhysMem) × (memory_free t n ptr ≡ ok u)
      × IsValid u
      × (u.free_pages ≡ s.free_pages)
      × ((q : ℕ) → is_set u.memory_bitmap q ≡ is_set s.memory_bitmap q)
memory_free-memory_alloc s t n ptr v fits pos run some_run =
    let (r, run', allocated) = memory_alloc_lem s n v pos in
    by_result (subst (Allocated s n) (ok-injective (sym run' ∙ run)) allocated)
  where
    result_of : Outcome (ℕ × PhysMem) → ℕ × PhysMem
    result_of (ok r) = r
    result_of halt = (0, s)
    result_of fault = (0, s)

    ok-injective : {r r' : ℕ × PhysMem} → ok r ≡ ok r' → r ≡ r'
    ok-injective e = ap result_of e

    by_result :
        Allocated s n (ptr, t)
        → (u : PhysMem) × (memory_free t n ptr ≡ ok u)
          × IsValid u
          × (u.free_pages ≡ s.free_pages)
          × ((q : ℕ) → is_set u.memory_bitmap q ≡ is_set s.memory_bitmap q)
    by_result (inl (null, same)) = absurd (some_run null)
    by_result (inr (block, g)) = memory_free-Granted s n block ptr t fits pos g
