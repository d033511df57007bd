-- ===== src/Mm/PhysMem/Tests.antt =====
-- Runs of kernel/mm/physmem.c on a small area, and its theorems at these inputs.
use racoon.Base.{ℕ, zero, suc, ◌≡◌, refl, false, arith, ok, fault, test_bit}
use racoon.Mm.PhysMem.{
  PhysMem, is_set, to_ptr, memory_alloc, memory_multiple_alloc, search_pages, probe, scan, grant,
  found, take_pages, memory_free, memory_set,
}
use racoon.Mm.PhysMem.Bitmap.{clear_count}
use racoon.Mm.PhysMem.Invariant.{IsValid, AllSet}
use racoon.Mm.PhysMem.Alloc.{Allocated, memory_alloc_lem}
use racoon.Mm.PhysMem.Free.{Released, memory_free_lem, memory_free-memory_alloc}
use racoon.Mm.PhysMem.Set.{memory_set_inside_page}

-- An area of 8 pages at 1 MB, of which page 0 and page 3 are taken.
abbrev area : PhysMem
area = record {
  memory_bitmap = λ _. 9;
  memory_pages = 8;
  memory_offset = 0x10_0000;
  free_pages = 6;
  last_page = 0;
}

abbrev statics : PhysMem
statics = record {
  memory_bitmap = λ _. 0;
  memory_pages = 0;
  memory_offset = 0;
  free_pages = 0;
  last_page = 0;
}

area-IsValid : IsValid area
unfolding clear_count is_set test_bit
area-IsValid = record { counted = refl; small = omega arith; last_in = omega arith }

-- Pages 1 and 2 are the first run of two.
alloc_two :
    (r : ℕ × PhysMem) × (memory_alloc area 2 ≡ ok r) × (r.0 ≡ 0x10_1000) × (r.1.free_pages ≡ 4)
unfolding memory_alloc memory_multiple_alloc search_pages probe scan is_set test_bit take_pages
alloc_two = (_, refl, refl, refl)

memory_alloc_lem_example : (r : ℕ × PhysMem) × (memory_alloc area 2 ≡ ok r) × Allocated area 2 r
memory_alloc_lem_example = memory_alloc_lem area 2 area-IsValid (omega arith)

page_three_taken : AllSet area 3 1
unfolding is_set test_bit
page_three_taken zero h = refl
page_three_taken (suc j) h = absurd (omega arith)

memory_free_lem_example :
    (t : PhysMem) × (memory_free area 1 (to_ptr area 3) ≡ ok t) × Released area 1 3 t
memory_free_lem_example =
    memory_free_lem area 1 3 (omega arith) (omega arith) (omega arith) page_three_taken area-IsValid

-- Pages 1 and 2 as `memory_alloc` leaves them.
abbrev after_two : PhysMem
after_two = (grant area 2 (found 1)).1

granted_two : memory_alloc area 2 ≡ ok (0x10_1000, after_two)
unfolding memory_alloc memory_multiple_alloc search_pages probe scan is_set test_bit grant
granted_two = refl

memory_free-memory_alloc_example :
    (u : PhysMem) × (memory_free after_two 2 0x10_1000 ≡ ok u)
    × IsValid u
    × (u.free_pages ≡ area.free_pages)
    × ((q : ℕ) → is_set u.memory_bitmap q ≡ is_set area.memory_bitmap q)
memory_free-memory_alloc_example =
    memory_free-memory_alloc area after_two 2 0x10_1000 area-IsValid (omega arith) (omega arith)
      granted_two (omega arith)

memory_set_inside_page_example : memory_set area 0x10_2100 0x10_2200 false ≡ fault
memory_set_inside_page_example =
    memory_set_inside_page area 0x10_2100 0x10_2200 area-IsValid (omega arith) (omega arith)
      (omega arith) (omega arith) (omega arith) (omega arith) (omega arith) (omega arith)
      (omega arith)
