-- ===== src/Mm/PhysMem/Bitmap.antt =====
-- The bitmap of kernel/mm/physmem.c as a set of pages, and the number of pages that it leaves clear.
use racoon.Base.{
  ℕ, zero, suc, ◌+◌, ◌/◌, ◌%◌, ◌≤◌, ◌<◌, ◌≡◌, refl, Bool, true, false, ◌==◌, ltb, leb, ◌&&◌,
  if◌then◌else◌, arith, test_bit-set_bit, test_bit-clear_bit,
}
use racoon.Mm.PhysMem.{is_set, set_page, unset_page}

module _ (b : ℕ → ℕ) (p q : ℕ) where
  pub is_set-set_page : is_set (set_page b p) q ≡ (if p == q then true else is_set b q)
  unfolding is_set set_page
  is_set-set_page = ground (arith, test_bit-set_bit (b (p / 32)) (p % 32) (q % 32))

  pub is_set-unset_page : is_set (unset_page b p) q ≡ (if p == q then false else is_set b q)
  unfolding is_set unset_page
  is_set-unset_page = ground (arith, test_bit-clear_bit (b (p / 32)) (p % 32) (q % 32))

-- Clear pages below `n`.
unfoldable pub clear_count : (ℕ → ℕ) → ℕ → ℕ
clear_count b zero = 0
clear_count b (suc n) = clear_count b n + (if is_set b n then 0 else 1)

pub clear_count-le : (b : ℕ → ℕ) (n : ℕ) → clear_count b n ≤ n
unfolding clear_count
clear_count-le b zero = omega arith
clear_count-le b (suc n) = ground (arith, clear_count-le b n)

set_page_above : (b : ℕ → ℕ) (n p : ℕ) → n ≤ p → clear_count (set_page b p) n ≡ clear_count b n
unfolding clear_count
set_page_above b zero p h = refl
set_page_above b (suc n) p h = ground (arith, set_page_above b n p, is_set-set_page b p n)

-- Setting a page below `n` takes one clear page away, if it was clear.
pub clear_count-set_page :
    (b : ℕ → ℕ) (n p : ℕ)
    → p < n
    → clear_count (set_page b p) n + (if is_set b p then 0 else 1) ≡ clear_count b n
unfolding clear_count
clear_count-set_page b zero p h = absurd (omega arith)
clear_count-set_page b (suc n) p h =
    ground (arith, clear_count-set_page b n p, set_page_above b n p, is_set-set_page b p n)

unset_page_above : (b : ℕ → ℕ) (n p : ℕ) → n ≤ p → clear_count (unset_page b p) n ≡ clear_count b n
unfolding clear_count
unset_page_above b zero p h = refl
unset_page_above b (suc n) p h = ground (arith, unset_page_above b n p, is_set-unset_page b p n)

pub clear_count-unset_page :
    (b : ℕ → ℕ) (n p : ℕ)
    → p < n
    → clear_count (unset_page b p) n ≡ clear_count b n + (if is_set b p then 1 else 0)
unfolding clear_count
clear_count-unset_page b zero p h = absurd (omega arith)
clear_count-unset_page b (suc n) p h =
    ground (arith, clear_count-unset_page b n p, unset_page_above b n p, is_set-unset_page b p n)

-- `[first, first + n)` as a test.
abbrev pub in_run : ℕ → ℕ → ℕ → Bool
in_run first n q = leb first q && ltb q (first + n)

-- A run that misses no page leaves no clear page.
pub clear_count_of_all_set :
    (b : ℕ → ℕ) (n : ℕ) → ((q : ℕ) → q < n → is_set b q ≡ true) → clear_count b n ≡ 0
unfolding clear_count
clear_count_of_all_set b zero h = refl
clear_count_of_all_set b (suc n) h =
    let below : clear_count b n ≡ 0 = clear_count_of_all_set b n (λ q lt. h q (omega arith)) in
    let top : is_set b n ≡ true = h n (omega arith) in rw (below, top) (omega arith)
