-- ===== src/Mm/PhysMem/Init.antt =====
-- `init_physmem` starts with every page of the area taken.
use racoon.Base.{
  ℕ, zero, suc, ◌+◌, ◌*◌, ◌/◌, ◌%◌, ◌^◌, ◌≤◌, ◌<◌, ◌≡◌, refl, sym, ◌∙◌, true, arith, if◌then◌else◌,
  ok, test_bit_full, update, ◌-◌,
}
use racoon.Mm.PhysMem.{PhysMem, is_set, set_page, fill_blocks, fill_pages, init_physmem}
use racoon.Mm.PhysMem.Bitmap.{in_run, is_set-set_page, clear_count_of_all_set}
use racoon.Mm.PhysMem.Invariant.{IsValid}

is_set-fill_blocks :
    (k i : ℕ) (b : ℕ → ℕ) (q : ℕ)
    → is_set (fill_blocks k i b) q ≡ (if in_run i k (q / 32) then true else is_set b q)
unfolding fill_blocks is_set
is_set-fill_blocks zero i b q = ground arith
is_set-fill_blocks (suc k) i b q =
    ground (arith, is_set-fill_blocks k (i + 1) (update b i (2 ^ 32 - 1)) q, test_bit_full (q % 32))

is_set-fill_pages :
    (k p : ℕ) (b : ℕ → ℕ) (q : ℕ)
    → is_set (fill_pages k p b) q ≡ (if in_run p k q then true else is_set b q)
unfolding fill_pages
is_set-fill_pages zero p b q = ground arith
is_set-fill_pages (suc k) p b q =
    ground (arith, is_set-fill_pages k (p + 1) (set_page b p) q, is_set-set_page b p q)

-- Started on the zeroed statics with an area of at most 2^20 pages, `init_physmem` returns a
-- well-formed state of that area in which every page is taken, whatever the memory of the bitmap held.
pub init_physmem-IsValid :
    (s : PhysMem) (offset : ℕ) (map : ℕ → ℕ) (pages : ℕ)
    → s.free_pages ≡ 0
    → s.last_page ≡ 0
    → pages ≤ 2 ^ 20
    → (t : PhysMem) × (init_physmem s offset map pages ≡ ok t)
      × IsValid t
      × (t.memory_pages ≡ pages)
      × (t.memory_offset ≡ offset)
      × ((q : ℕ) → q < pages → is_set t.memory_bitmap q ≡ true)
unfolding init_physmem
init_physmem-IsValid s offset map pages f l small = (
  t,
  ground arith,
  record {
    counted = f ∙ sym (clear_count_of_all_set t.memory_bitmap pages taken);
    small = small;
    last_in = omega arith;
  },
  refl,
  refl,
  taken,
)
  where
    t : PhysMem
    t = record s {
      memory_offset = offset;
      memory_pages = pages;
      memory_bitmap = fill_pages (pages % 32) (pages / 32 * 32) (fill_blocks (pages / 32) 0 map);
    }

    taken : (q : ℕ) → q < pages → is_set t.memory_bitmap q ≡ true
    taken q h = ground (
      arith,
      is_set-fill_pages (pages % 32) (pages / 32 * 32) (fill_blocks (pages / 32) 0 map) q,
      is_set-fill_blocks (pages / 32) 0 map q,
    )
