-- ===== src/Mm/Vmem/Alloc/Tests.antt =====
-- An allocator of one span.
use racoon.Base.{
  suc, ℕ, ◌^◌, ◌≤◌, ◌<◌, ◌≡◌, ◌⊎◌, refl, arith, true, false, List, [], ◌∷◌, ok, load, store,
}
use racoon.Mm.Vmem.{
  Tag, Vmem, freed, Machine, kmalloc, first_result, vmem_getspan, size_bit, highbit, bit_scan,
  cache_num, is_linked, add_freelist, rem_freelist, unlink, find_tag, next_tag, prev_tag, set_tag,
  remove_tag, insert_behind, set_span,
}
use racoon.Mm.Vmem.Highbit.{highbit_lem}
use racoon.Mm.Vmem.Search.{
  search_tag, vmem_alloc_search, vmem_alloc_quantum, search_cache, search_list,
}
use racoon.Mm.Vmem.Search.Fit.{Finds, vmem_alloc_search-Finds}
use racoon.Mm.Vmem.Alloc.{
  vmem_alloc, vmem_free, carve, vmem_al_splittag, enter, enter_at, release, melt_left, melt_right,
}
use racoon.Mm.Vmem.Alloc.Safety.{AreValid, Granted, vmem_alloc-Granted}

abbrev machine : List ℕ → Machine
machine supply = record { supply = supply; imports = []; calls = [] }

abbrev whole_tag : Tag
whole_tag = record { at = 64; addr = 4096; size = 16384; source_addr = 0; allocated = false }

abbrev ranges : Vmem
ranges = record {
  at = 8;
  name = λ j. 0;
  quantum = 4096;
  cache_max = 16384;
  cache_bits = 3;
  source = 0;
  vmflag = 0;
  tags = whole_tag ∷ [];
  spans = record { at = 32; addr = 4096; size = 16384; slots = 4; hash = 0 ∷ 0 ∷ 0 ∷ 0 ∷ [] } ∷ [];
  free_cache = [] ∷ [] ∷ (64 ∷ []) ∷ [];
}

-- 5000 bytes are two quanta, at the end of the range.
abbrev ranges_after : Vmem
ranges_after = record ranges {
  tags =
      record whole_tag { size = 8192 }
      ∷ record { at = 96; addr = 12288; size = 8192; source_addr = 0; allocated = true }
      ∷ [];
  spans = record { at = 32; addr = 4096; size = 16384; slots = 4; hash = 0 ∷ 0 ∷ 96 ∷ 0 ∷ [] } ∷ [];
  free_cache = [] ∷ (64 ∷ []) ∷ [] ∷ [];
}

ranges_alloc : vmem_alloc ranges 5000 0 (machine (96 ∷ [])) ≡ ok (12288, ranges_after, machine [])
unfolding vmem_alloc search_tag vmem_alloc_quantum size_bit highbit bit_scan search_cache
    search_list find_tag load store cache_num rem_freelist unlink carve vmem_al_splittag kmalloc
    first_result insert_behind set_tag add_freelist is_linked enter enter_at vmem_getspan set_span
ranges_alloc = refl

-- Freed, the range melts into its neighbour.
ranges_free :
    vmem_free ranges_after 12288 (machine [])
    ≡ ok (12288, ranges, record (machine []) { calls = freed 96 ∷ [] })
unfolding vmem_free vmem_getspan load store find_tag release set_tag set_span melt_left prev_tag
    melt_right next_tag cache_num size_bit highbit bit_scan rem_freelist unlink remove_tag
    add_freelist is_linked
ranges_free = refl

ranges-AreValid : AreValid (whole_tag ∷ [])
ranges-AreValid = ((omega arith, omega arith, tt), (tt, tt))

vmem_alloc-Granted_example :
    AreValid ranges_after.tags
    × ((◌≡◌ {A = ℕ} 12288 0 × (ranges_after.tags ≡ ranges.tags))
        ⊎ Granted 5000 12288 ranges.tags ranges_after.tags)
unfolding kmalloc first_result
vmem_alloc-Granted_example =
    vmem_alloc-Granted ranges ranges_after 5000 0 12288 (machine (96 ∷ [])) (machine []) refl
      (omega arith) ranges-AreValid (omega arith, tt) ranges_alloc

vmem_alloc_search-Finds_example : Finds true 4096 ranges.tags (vmem_alloc_search ranges 4096 1)
vmem_alloc_search-Finds_example = vmem_alloc_search-Finds ranges 4096 1

highbit_example : (i : ℕ) × (highbit 5 ≡ ok i) × (2 ^ i ≤ 5) × (5 < 2 ^ suc i)
highbit_example = highbit_lem 5 (omega arith) (omega arith)
