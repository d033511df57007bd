-- ===== src/Mm/PhysMem/Single.antt =====
-- A request for one page: the search passes no clear page over, so it is refused only when the
-- counter says that one page or none is left.
use racoon.Base.{
  ℕ, zero, suc, ◌+◌, ◌-◌, ◌%◌, ◌^◌, ◌≤◌, ◌<◌, ◌≡◌, refl, ap, ◌∙◌, true, arith, Bool-cases, inl, inr,
  ℕ_discrete, ok, dec_lt,
}
use native.Mathlib.Nat.{mod-eq_of_lt, mod-eq-sub-mod, add-zero}
use racoon.Mm.PhysMem.{
  PhysMem, is_set, search_pages, Search, found, exhausted, out_of_fuel, memory_multiple_alloc,
  memory_alloc, probe, next_index, scan, grant,
}
use racoon.Mm.PhysMem.Bitmap.{clear_count_of_all_set}
use racoon.Mm.PhysMem.Invariant.{IsValid}
use racoon.Mm.PhysMem.Scan.{block_at, block_bounds, search_pages-Fits, search_pages_ends}
use racoon.Mm.PhysMem.Alloc.{Granted, grant-Granted}

module _ (s : PhysMem) (v : IsValid s) where
  one : 0 < 1
  one = omega arith

  few_one : 1 < 2 ^ 20
  few_one = omega arith

  -- The page that round `k` looks at.
  abbrev page_at : ℕ → ℕ
  page_at k = (k + s.last_page) % s.memory_pages

  probe_single :
      (i i' : ℕ)
      → i < s.memory_pages
      → probe s 1 i ≡ next_index i'
      → (i' ≡ i + 1) × (is_set s.memory_bitmap (page_at i) ≡ true)
  unfolding probe scan
  probe_single i i' h e =
      elim (Bool-cases (is_set s.memory_bitmap (block_at s 1 v one few_one i))) [
        | inl taken ↦
            ground
              (arith, block_bounds s 1 v one few_one i h, add-zero (block_at s 1 v one few_one i))
        | inr free ↦ absurd (
            ground
              (arith, block_bounds s 1 v one few_one i h, add-zero (block_at s 1 v one few_one i)))
      ]

  exhausted_single :
      (fuel i : ℕ)
      → search_pages fuel s 1 i ≡ exhausted
      → (k : ℕ) → i ≤ k
      → k < s.memory_pages
      → is_set s.memory_bitmap (page_at k) ≡ true
  unfolding search_pages
  exhausted_single zero i e k l h = absurd (ground arith)
  exhausted_single (suc fuel) i e k l h = elim (ℕ_discrete i k) [
    | yes same ↦ grind (arith, probe_single i)
    | no other ↦ grind (arith, probe_single i, exhausted_single fuel)
  ]

  round_of : (q : ℕ) → q < s.memory_pages → (k : ℕ) × (k < s.memory_pages) × (page_at k ≡ q)
  round_of q h = elim (dec_lt q s.last_page) [
    | yes below ↦ (
      q + s.memory_pages - s.last_page,
      omega arith,
      (let e : q + s.memory_pages - s.last_page + s.last_page ≡ q + s.memory_pages = omega arith in
          rw e (
            mod-eq-sub-mod (omega arith)
            ∙ ap (λ t. t % s.memory_pages) (omega arith)
            ∙ mod-eq_of_lt h)),
    )
    | no above ↦ (
      q - s.last_page,
      omega arith,
      (let e : q - s.last_page + s.last_page ≡ q = omega arith in rw e (mod-eq_of_lt h)),
    )
  ]

  -- With two pages or more on the counter the search for one page finds a clear page.
  found_single :
      1 < s.free_pages
      → (r : Search) → search_pages (s.memory_pages + 1) s 1 0 ≡ r
      → (b : ℕ) × (r ≡ found b)
  found_single more (found b) e = (b, refl)
  found_single more out_of_fuel e =
      absurd
        (search_pages_ends s 1 v one few_one (s.memory_pages + 1) 0 (omega arith) (omega arith) e)
  found_single more exhausted e =
      let all_set : (q : ℕ) → q < s.memory_pages → is_set s.memory_bitmap q ≡ true = λ q h.
        let (k, lt, at) = round_of q h in
        rw at at (exhausted_single (s.memory_pages + 1) 0 e k (omega arith) lt) in
      absurd (omega (arith, clear_count_of_all_set s.memory_bitmap s.memory_pages all_set))

  -- While the counter says that two pages or more are free, a request for one page is granted.
  pub memory_alloc_single :
      1 < s.free_pages
      → (block : ℕ) × (ptr : ℕ) × (t : PhysMem) × (memory_alloc s 1 ≡ ok (ptr, t))
        × Granted s 1 block ptr t
  unfolding memory_alloc memory_multiple_alloc
  memory_alloc_single more =
      let (b, e) = found_single more _ refl in
      (
        b,
        (grant s 1 (found b)).0,
        (grant s 1 (found b)).1,
        ground arith,
        grant-Granted s 1 v one b (search_pages-Fits s 1 v one few_one (s.memory_pages + 1) 0 b e),
      )
