-- ===== src/Mm/PhysMem/Set.antt =====
-- `memory_set` marks the pages that a range of bytes touches as used, or those inside it as free.
use racoon.Base.{
  ℕ, zero, suc, ◌+◌, ◌-◌, ◌*◌, ◌/◌, ◌%◌, ◌^◌, ◌≤◌, ◌<◌, ◌≡◌, ◌≢◌, refl, Bool, true, false,
  if◌then◌else◌, arith, inl, inr, sub32, ltb, Bool-cases, ok, fault, ◌⊎◌, dec_lt,
}
use racoon.Mm.PhysMem.{
  PhysMem, is_set, page_size, mark_page, mark_pages, bitmap_bits, round_up, round_down, memory_set,
}
use racoon.Mm.PhysMem.Bitmap.{
  clear_count-le, in_run, is_set-unset_page, is_set-set_page, clear_count-unset_page,
  clear_count-set_page,
}
use racoon.Mm.PhysMem.Invariant.{IsValid}

-- The pages from `p` on, `k` of them, marked.
unfoldable pub marked : Bool → ℕ → ℕ → PhysMem → PhysMem
marked used zero p s = s
marked used (suc k) p s = marked used k (p + 1) (mark_page used p s)

pub is_set-marked :
    (used : Bool) (k p q : ℕ) (s : PhysMem)
    → is_set (marked used k p s).memory_bitmap q
      ≡ (if in_run p k q then used else is_set s.memory_bitmap q)
unfolding marked mark_page
is_set-marked used zero p q s = ground arith
is_set-marked true (suc k) p q s = ground (
  arith,
  is_set-marked true k (p + 1) q (mark_page true p s),
  is_set-set_page s.memory_bitmap p q,
)
is_set-marked false (suc k) p q s = ground (
  arith,
  is_set-marked false k (p + 1) q (mark_page false p s),
  is_set-unset_page s.memory_bitmap p q,
)

mark_page-IsValid :
    (used : Bool) (p : ℕ) (s : PhysMem)
    → p < s.memory_pages
    → IsValid s
    → IsValid (mark_page used p s)
unfolding mark_page
mark_page-IsValid true p s h v = ground (
  arith,
  clear_count-set_page s.memory_bitmap s.memory_pages p,
  clear_count-le s.memory_bitmap s.memory_pages,
)
mark_page-IsValid false p s h v = ground (
  arith,
  clear_count-unset_page s.memory_bitmap s.memory_pages p,
  clear_count-le s.memory_bitmap s.memory_pages,
)

mark_page-pages :
    (used : Bool) (p : ℕ) (s : PhysMem) → (mark_page used p s).memory_pages ≡ s.memory_pages
unfolding mark_page
mark_page-pages true p s = refl
mark_page-pages false p s = refl

pub marked-IsValid :
    (used : Bool) (k p : ℕ) (s : PhysMem)
    → p + k ≤ s.memory_pages
    → IsValid s
    → IsValid (marked used k p s)
unfolding marked
marked-IsValid used zero p s h v = v
marked-IsValid used (suc k) p s h v =
    marked-IsValid used k (p + 1) (mark_page used p s) (omega (arith, mark_page-pages used p s))
      (mark_page-IsValid used p s (omega arith) v)

-- Inside the area the loop of `memory_set` runs to its end.
mark_pages-ok :
    (used : Bool) (k p : ℕ) (s : PhysMem)
    → p + k ≤ s.memory_pages
    → mark_pages used k p s ≡ ok (marked used k p s)
unfolding mark_pages marked
mark_pages-ok used zero p s h = refl
mark_pages-ok used (suc k) p s h =
    let has_bit : ltb p (bitmap_bits s) ≡ true = ground (arith, h) in
    rw has_bit (
      mark_pages-ok used k (p + 1) (mark_page used p s)
        (omega (arith, h, mark_page-pages used p s)))

-- A run that goes on behind the bitmap touches what is there.
mark_pages-fault :
    (used : Bool) (k p : ℕ) (s : PhysMem)
    → p ≤ bitmap_bits s
    → bitmap_bits s < p + k
    → mark_pages used k p s ≡ fault
unfolding mark_pages
mark_pages-fault used zero p s low high = absurd (omega (arith, low, high))
mark_pages-fault used (suc k) p s low high = elim (Bool-cases (ltb p (bitmap_bits s))) [
  | inl inside ↦ rw inside (
      mark_pages-fault used k (p + 1) (mark_page used p s)
        (ground (arith, inside, mark_page-pages used p s))
        (omega (arith, high, mark_page-pages used p s)))
  | inr outside ↦ rw outside refl
]

-- Some byte of page `q`, counted from `offset`, lies in `[pstart, pend)`; all of them do.
abbrev pub Touches : ℕ → ℕ → ℕ → ℕ → Type 0
Touches offset pstart pend q =
    (pstart < offset + (q + 1) * page_size) × (offset + q * page_size < pend)

abbrev pub Covers : ℕ → ℕ → ℕ → ℕ → Type 0
Covers offset pstart pend q =
    (pstart ≤ offset + q * page_size) × (offset + (q + 1) * page_size ≤ pend)

module _ (s : PhysMem) (pstart pend : ℕ) (v : IsValid s) (aligned : s.memory_offset % page_size ≡ 0)
    (above : s.memory_offset ≤ pstart) (ordered : pstart < pend)
    (inside : pend ≤ s.memory_offset + s.memory_pages * page_size)
    (fits : s.memory_offset + s.memory_pages * page_size < 2 ^ 32) where
  abbrev first_touched : ℕ
  first_touched = pstart / page_size - s.memory_offset / page_size

  abbrev end_touched : ℕ
  end_touched = (pend + 4095) / page_size - s.memory_offset / page_size

  memory_set_run :
      memory_set s pstart pend true ≡ ok (marked true (end_touched - first_touched) first_touched s)
  unfolding memory_set round_down round_up
  memory_set_run =
      let first : round_down pstart ≡ pstart / page_size * page_size = ground arith in
      let last : round_up pend ≡ (pend + 4095) / page_size * page_size = ground arith in
      let count : sub32 ((pend + 4095) / page_size * page_size) (pstart / page_size * page_size)
            / page_size
          ≡ end_touched - first_touched =
        omega arith in
      let start : sub32 (pstart / page_size * page_size) s.memory_offset / page_size
          ≡ first_touched =
        omega arith in
      rw (first, last, count, start)
        (mark_pages-ok true (end_touched - first_touched) first_touched s (omega arith))

  -- Marking a range of bytes used sets the pages that it touches, leaves all others, and keeps
  -- the counter equal to the number of clear pages.
  pub memory_set_used :
      (t : PhysMem) × (memory_set s pstart pend true ≡ ok t)
      × IsValid t
      × ((q : ℕ) → Touches s.memory_offset pstart pend q → is_set t.memory_bitmap q ≡ true)
      × ((q : ℕ)
          → ¬ (Touches s.memory_offset pstart pend q)
          → is_set t.memory_bitmap q ≡ is_set s.memory_bitmap q)
  memory_set_used = (
    marked true (end_touched - first_touched) first_touched s,
    memory_set_run,
    marked-IsValid true (end_touched - first_touched) first_touched s (omega arith) v,
    (λ q t.
        let low : first_touched ≤ q = omega arith in
        let high : q < first_touched + (end_touched - first_touched) = omega arith in
        ground (arith, is_set-marked true (end_touched - first_touched) first_touched q s)),
    (λ q t.
        let out : (q < first_touched) ⊎ (end_touched ≤ q) = elim (dec_lt q first_touched) [
          | yes l ↦ inl l
          | no l ↦ elim (dec_lt q end_touched) [
            | yes u ↦ absurd (t (omega arith))
            | no u ↦ inr (omega arith)
          ]
        ] in
        ground (arith, is_set-marked true (end_touched - first_touched) first_touched q s)),
  )

  abbrev first_covered : ℕ
  first_covered = (pstart + 4095) / page_size - s.memory_offset / page_size

  abbrev end_covered : ℕ
  end_covered = pend / page_size - s.memory_offset / page_size

  memory_set_free_run :
      first_covered ≤ end_covered
      → memory_set s pstart pend false
        ≡ ok (marked false (end_covered - first_covered) first_covered s)
  unfolding memory_set round_down round_up
  memory_set_free_run wide =
      let first : round_up pstart ≡ (pstart + 4095) / page_size * page_size = ground arith in
      let last : round_down pend ≡ pend / page_size * page_size = ground arith in
      let count : sub32 (pend / page_size * page_size) ((pstart + 4095) / page_size * page_size)
            / page_size
          ≡ end_covered - first_covered =
        omega arith in
      let start : sub32 ((pstart + 4095) / page_size * page_size) s.memory_offset / page_size
          ≡ first_covered =
        omega arith in
      rw (first, last, count, start)
        (mark_pages-ok false (end_covered - first_covered) first_covered s (omega (arith, wide)))

  -- Marking a range of bytes free, where a page boundary lies between its ends or on one of them,
  -- clears the pages all of whose bytes are in the range, leaves all others, and keeps the counter
  -- equal to the number of clear pages.
  pub memory_set_free :
      (pstart + 4095) / page_size ≤ pend / page_size
      → (t : PhysMem) × (memory_set s pstart pend false ≡ ok t)
        × IsValid t
        × ((q : ℕ) → Covers s.memory_offset pstart pend q → is_set t.memory_bitmap q ≡ false)
        × ((q : ℕ)
            → ¬ (Covers s.memory_offset pstart pend q)
            → is_set t.memory_bitmap q ≡ is_set s.memory_bitmap q)
  memory_set_free wide = (
    marked false (end_covered - first_covered) first_covered s,
    memory_set_free_run (omega arith),
    marked-IsValid false (end_covered - first_covered) first_covered s (omega arith) v,
    (λ q t.
        let low : first_covered ≤ q = omega arith in
        let high : q < first_covered + (end_covered - first_covered) = omega arith in
        ground (arith, is_set-marked false (end_covered - first_covered) first_covered q s)),
    (λ q t.
        let out : (q < first_covered) ⊎ (end_covered ≤ q) = elim (dec_lt q first_covered) [
          | yes l ↦ inl l
          | no l ↦ elim (dec_lt q end_covered) [
            | yes u ↦ absurd (t (omega arith))
            | no u ↦ inr (omega arith)
          ]
        ] in
        ground (arith, is_set-marked false (end_covered - first_covered) first_covered q s)),
  )

  -- In a well-formed state, whose area begins at a page boundary, ends below 2^32 and is at least
  -- 32 pages smaller than the 2^20 pages that addresses can name: marking free a range of bytes
  -- strictly inside one page of it, which covers no page, runs the loop for 2^20 - 1 pages, since
  -- the ends are rounded past each other and their difference wraps, and so writes behind the
  -- bitmap.
  pub memory_set_inside_page :
      s.memory_pages + 32 ≤ 2 ^ 20
      → pstart % page_size ≢ 0
      → pend % page_size ≢ 0
      → pstart / page_size ≡ pend / page_size
      → memory_set s pstart pend false ≡ fault
  unfolding memory_set round_down round_up
  memory_set_inside_page small a b same =
      let first : round_up pstart ≡ (pstart / page_size + 1) * page_size = ground arith in
      let last : round_down pend ≡ pstart / page_size * page_size = ground arith in
      let count : sub32 (pstart / page_size * page_size) ((pstart / page_size + 1) * page_size)
            / page_size
          ≡ 2 ^ 20 - 1 =
        omega arith in
      let start : sub32 ((pstart / page_size + 1) * page_size) s.memory_offset / page_size
          ≡ first_covered =
        omega arith in
      rw (first, last, count, start)
        (mark_pages-fault false (2 ^ 20 - 1) first_covered s (omega arith) (omega arith))
