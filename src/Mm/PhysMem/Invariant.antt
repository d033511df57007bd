-- ===== src/Mm/PhysMem/Invariant.antt =====
-- Between two calls the counter `s_freePages` is the number of clear bits of the bitmap.
use racoon.Base.{ℕ, zero, suc, ◌+◌, ◌^◌, ◌≤◌, ◌<◌, ◌≡◌, refl, true, false, if◌then◌else◌, arith}
use racoon.Mm.PhysMem.{PhysMem, is_set, take_page, take_pages, release_page}
use racoon.Mm.PhysMem.Bitmap.{
  clear_count, clear_count-le, clear_count-set_page, clear_count-unset_page, is_set-set_page,
  in_run,
}

-- The 32-bit address space has `2 ^ 20` pages.
pub record IsValid (s : PhysMem) : Type 0 where
  pub counted : s.free_pages ≡ clear_count s.memory_bitmap s.memory_pages
  pub small : s.memory_pages ≤ 2 ^ 20
  pub last_in : s.last_page ≤ s.memory_pages

-- `t` is `s` but for bitmap and counter.
pub record SameArea (s t : PhysMem) : Type 0 where
  pub pages : t.memory_pages ≡ s.memory_pages
  pub offset : t.memory_offset ≡ s.memory_offset
  pub last : t.last_page ≡ s.last_page

-- All pages of the run are clear, or all are set.
abbrev pub AllClear : PhysMem → ℕ → ℕ → Type 0
AllClear s first n = (j : ℕ) → j < n → is_set s.memory_bitmap (first + j) ≡ false

abbrev pub AllSet : PhysMem → ℕ → ℕ → Type 0
AllSet s first n = (j : ℕ) → j < n → is_set s.memory_bitmap (first + j) ≡ true

pub take_pages-SameArea : (k p : ℕ) (s : PhysMem) → SameArea s (take_pages k p s)
unfolding take_pages
take_pages-SameArea zero p s = record { pages = refl; offset = refl; last = refl }
take_pages-SameArea (suc k) p s =
    let h = take_pages-SameArea k (p + 1) (take_page p s) in
    record { pages = h.pages; offset = h.offset; last = h.last }

pub is_set-take_pages :
    (k p q : ℕ) (s : PhysMem)
    → is_set (take_pages k p s).memory_bitmap q
      ≡ (if in_run p k q then true else is_set s.memory_bitmap q)
unfolding take_pages
is_set-take_pages zero p q s = ground arith
is_set-take_pages (suc k) p q s =
    ground
      (arith, is_set-take_pages k (p + 1) q (take_page p s), is_set-set_page s.memory_bitmap p q)

pub take_page-IsValid :
    (p : ℕ) (s : PhysMem)
    → p < s.memory_pages
    → is_set s.memory_bitmap p ≡ false
    → IsValid s
    → IsValid (take_page p s)
take_page-IsValid p s h c v = ground (
  arith,
  clear_count-set_page s.memory_bitmap s.memory_pages p,
  clear_count-le s.memory_bitmap s.memory_pages,
)

take_page-AllClear :
    (k p : ℕ) (s : PhysMem) → AllClear s p (suc k) → AllClear (take_page p s) (p + 1) k
take_page-AllClear k p s c j lt =
    let e : p + 1 + j ≡ p + suc j = omega arith in
    rw e (ground (arith, is_set-set_page s.memory_bitmap p (p + suc j), c (suc j)))

pub take_pages-IsValid :
    (k p : ℕ) (s : PhysMem)
    → p + k ≤ s.memory_pages
    → AllClear s p k
    → IsValid s
    → IsValid (take_pages k p s)
unfolding take_pages
take_pages-IsValid zero p s h c v = v
take_pages-IsValid (suc k) p s h c v =
    take_pages-IsValid k (p + 1) (take_page p s) (omega arith) (take_page-AllClear k p s c) (
      take_page-IsValid p s (omega arith)
        (let e : p + 0 ≡ p = omega arith in rw e at (c 0 (omega arith))) v)

pub release_page-IsValid :
    (p : ℕ) (s : PhysMem)
    → p < s.memory_pages
    → is_set s.memory_bitmap p ≡ true
    → IsValid s
    → IsValid (release_page p s)
release_page-IsValid p s h c v = ground (
  arith,
  clear_count-unset_page s.memory_bitmap s.memory_pages p,
  clear_count-le s.memory_bitmap s.memory_pages,
)

-- The counter falls by the length of the run.
pub free_pages-take_pages :
    (k p : ℕ) (s : PhysMem)
    → p + k ≤ s.memory_pages
    → AllClear s p k
    → IsValid s
    → (take_pages k p s).free_pages + k ≡ s.free_pages
unfolding take_pages
free_pages-take_pages zero p s h c v = omega arith
free_pages-take_pages (suc k) p s h c v =
    let first : is_set s.memory_bitmap p ≡ false =
      let e : p + 0 ≡ p = omega arith in rw e at (c 0 (omega arith)) in
    ground (
      arith,
      free_pages-take_pages k (p + 1) (take_page p s) (omega arith) (take_page-AllClear k p s c)
          (take_page-IsValid p s (omega arith) first v),
      clear_count-set_page s.memory_bitmap s.memory_pages p,
      clear_count-le s.memory_bitmap s.memory_pages,
    )
