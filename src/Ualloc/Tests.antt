-- ===== src/Ualloc/Tests.antt =====
-- A process with a shared region and one of its own.
use racoon.Base.{ℕ, ◌+◌, ◌*◌, ◌≡◌, refl, arith, some, List, [], ◌∷◌, u32, Bool, ok, ◌==◌, ◌||◌}
use racoon.Ualloc.{
  smk_ok, smk_not_found, Region, Process, Call, memory_freed, page_released, freed, ensured,
  Machine, page_size, first_result, memory_alloc, kmalloc, page_call, find_region, user_alloc,
  user_alloc_hard, user_free, user_size, user_location, user_release_all,
}
use racoon.Ualloc.Ensure.{user_ensure, ensure_from, fill, on_ok}
use racoon.Ualloc.Ensure.Pages.{Ends, user_ensure-Ends}
use racoon.Ualloc.Release.{
  GiveBack, user_release_all_lem, user_free-user_alloc, user_free_of_location,
}

abbrev shared_region : Region
shared_region = record { at = 64; pages = 2; flags = 0; phys = 8192; virt = 2147483648; shared = 1 }

abbrev own_region : Region
own_region = record { at = 96; pages = 3; flags = 0; phys = 65536; virt = 2147504128; shared = 0 }

abbrev two_regions : Process
two_regions = record { map = 7; flags = 0; alloc = shared_region ∷ own_region ∷ [] }

abbrev machine : (supply memory found : List ℕ) → Machine
machine supply memory found = record { supply = supply; memory = memory; found = found; calls = [] }

user_release_all_example :
    (cs : List Call) × (user_release_all 3 two_regions (machine [] [] [])
      ≡ some (record two_regions { alloc = [] }, record (machine [] [] []) { calls = cs }))
    × GiveBack 7 (shared_region ∷ own_region ∷ []) cs
user_release_all_example = user_release_all_lem two_regions (machine [] [] [])

-- Pages 1 and 3 of five are present: the other three are filled, in three regions.
is_present : ℕ → Bool
is_present index = index == 20480 || index == 28672

ensured_pages :
    user_ensure is_present two_regions 16384 5
      (machine (64 ∷ 96 ∷ 128 ∷ []) (4096 ∷ 8192 ∷ 12288 ∷ []) (0 ∷ 0 ∷ 0 ∷ []))
    ≡ ok (
      smk_ok,
      record two_regions {
        alloc =
            record { at = 128; pages = 1; flags = 0; phys = 12288; virt = 0; shared = 0 }
            ∷ record { at = 96; pages = 1; flags = 0; phys = 8192; virt = 0; shared = 0 }
            ∷ record { at = 64; pages = 1; flags = 0; phys = 4096; virt = 0; shared = 0 }
            ∷ two_regions.alloc;
      },
      record (machine [] [] []) {
        calls = ensured 7 16384 1 ∷ ensured 7 24576 1 ∷ ensured 7 32768 1 ∷ [];
      },
    )
unfolding user_ensure ensure_from fill on_ok user_alloc_hard memory_alloc kmalloc page_call
    first_result is_present
ensured_pages = refl

abbrev after_alloc : Process
after_alloc = record two_regions {
  alloc =
      record { at = 128; pages = 4; flags = 0; phys = 4096; virt = 2147516416; shared = 0 }
      ∷ two_regions.alloc;
}

user_free_example :
    (user_size after_alloc 2147516416 ≡ (smk_ok, some (u32 (4 * page_size))))
    × (user_location after_alloc 2147516416 ≡ (smk_ok, some 4096))
    × (user_free after_alloc 2147516416 (machine [] [] []) ≡ (
      smk_ok,
      two_regions,
      record (machine [] [] []) {
        calls = memory_freed 4 4096 ∷ page_released 7 2147516416 4 ∷ freed 128 ∷ [];
      },
    ))
unfolding user_alloc memory_alloc kmalloc page_call first_result
user_free_example =
    user_free-user_alloc two_regions after_alloc 4 4096
      (machine (128 ∷ []) (4096 ∷ []) (2147516416 ∷ []))
      (user_alloc two_regions 4 (machine (128 ∷ []) (4096 ∷ []) (2147516416 ∷ []))).3
      (machine [] [] []) refl

user_free_of_location_example :
    user_free after_alloc 4096 (machine [] [] []) ≡ (smk_not_found, after_alloc, machine [] [] [])
unfolding user_alloc memory_alloc kmalloc page_call first_result find_region
user_free_of_location_example =
    user_free_of_location two_regions after_alloc 4 4096
      (machine (128 ∷ []) (4096 ∷ []) (2147516416 ∷ []))
      (user_alloc two_regions 4 (machine (128 ∷ []) (4096 ∷ []) (2147516416 ∷ []))).3
      (machine [] [] []) refl refl (omega arith)

user_ensure_example : Ends (3 + 5) (
    user_ensure is_present two_regions 16384 5
      (machine (64 ∷ 96 ∷ 128 ∷ []) (4096 ∷ 8192 ∷ 12288 ∷ []) (0 ∷ 0 ∷ 0 ∷ [])))
unfolding is_present
user_ensure_example =
    user_ensure-Ends is_present two_regions 16384 5
      (machine (64 ∷ 96 ∷ 128 ∷ []) (4096 ∷ 8192 ∷ 12288 ∷ []) (0 ∷ 0 ∷ 0 ∷ [])) (omega arith)
