-- ===== src/Mm/PhysMem/Alloc.antt =====
-- What `memory_alloc` promises: a run of pages that were clear, now taken, or NULL and no change.
use racoon.Base.{
  ℕ, ◌+◌, ◌^◌, ◌<◌, ◌≡◌, refl, true, if◌then◌else◌, arith, ltb, Bool-cases, inl, inr, ◌⊎◌, ok,
}
use racoon.Mm.PhysMem.{
  PhysMem, is_set, to_ptr, search_pages, Search, found, exhausted, out_of_fuel, grant,
  memory_multiple_alloc, memory_alloc,
}
use racoon.Mm.PhysMem.Bitmap.{clear_count-le, in_run}
use racoon.Mm.PhysMem.Invariant.{
  IsValid, take_pages-SameArea, is_set-take_pages, take_pages-IsValid, free_pages-take_pages,
}
use racoon.Mm.PhysMem.Scan.{Fits, search_pages-Fits, search_pages_ends}

-- `t` is `s` with the `n` clear pages from `block` on taken, and `ptr` is their address.
pub record Granted (s : PhysMem) (n block ptr : ℕ) (t : PhysMem) : Type 0 where
  pub free_run : Fits s n block
  pub address : ptr ≡ to_ptr s block
  pub bits :
      (q : ℕ)
      → is_set t.memory_bitmap q ≡ (if in_run block n q then true else is_set s.memory_bitmap q)
  pub area : (t.memory_pages ≡ s.memory_pages) × (t.memory_offset ≡ s.memory_offset)
  pub counter : t.free_pages + n ≡ s.free_pages
  pub valid : IsValid t

-- The two ways in which a call returns.
abbrev pub Allocated : PhysMem → ℕ → ℕ × PhysMem → Type 0
Allocated s n (ptr, t) = ((ptr ≡ 0) × (t ≡ s)) ⊎ ((block : ℕ) × Granted s n block ptr t)

module _ (s : PhysMem) (n : ℕ) (v : IsValid s) (pos : 0 < n) where
  pub grant-Granted :
      (b : ℕ) → Fits s n b → Granted s n b (grant s n (found b)).0 (grant s n (found b)).1
  unfolding grant
  grant-Granted b f =
      let same = take_pages-SameArea n b s in
      let kept = take_pages-IsValid n b s f.inside f.clear v in
      record {
        free_run = f;
        address = refl;
        bits = λ q. is_set-take_pages n b q s;
        area = (same.pages, same.offset);
        counter = free_pages-take_pages n b s f.inside f.clear v;
        valid = record { counted = kept.counted; small = kept.small; last_in = omega arith };
      }

  grant-Allocated :
      (r : Search)
      → n < 2 ^ 20
      → search_pages (s.memory_pages + 1) s n 0 ≡ r
      → Allocated s n (grant s n r)
  unfolding grant
  grant-Allocated exhausted few e = inl (refl, refl)
  grant-Allocated out_of_fuel few e =
      absurd (search_pages_ends s n v pos few (s.memory_pages + 1) 0 (omega arith) (omega arith) e)
  grant-Allocated (found b) few e =
      inr (b, grant-Granted b (search_pages-Fits s n v pos few (s.memory_pages + 1) 0 b e))

  few_of_lt_free : n < s.free_pages → n < 2 ^ 20
  few_of_lt_free h = omega (arith, clear_count-le s.memory_bitmap s.memory_pages)

  -- `memory_alloc` returns for every request of a page or more: either NULL with nothing changed, or
  -- the address of a run of pages of the area that were all clear; then exactly these pages become
  -- set, the counter falls by their number, and the state is well-formed again.
  pub memory_alloc_lem : (r : ℕ × PhysMem) × (memory_alloc s n ≡ ok r) × Allocated s n r
  unfolding memory_alloc memory_multiple_alloc
  memory_alloc_lem = elim (Bool-cases (ltb n s.free_pages)) [
    | inl enough ↦ (
      memory_multiple_alloc s n,
      ground arith,
      grant-Allocated _ (few_of_lt_free (ground arith)) refl,
    )
    | inr short ↦ ((0, s), ground arith, inl (refl, refl))
  ]
