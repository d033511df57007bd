-- ===== src/Shmem/Create/Tests.antt =====
-- Regions in a small table.
use racoon.Base.{ℕ, ◌≡◌, refl, none, some, [], ◌∷◌, halt}
use racoon.Ds.Htable.{Htable, htable_retrieve, position, no_entries}
use racoon.Shmem.{Shmem}
use racoon.Shmem.Create.{retrieve}

abbrev region : ℕ → Shmem
region id = record {
  id = id;
  name = λ i. 0;
  pid = 5;
  flags = 0;
  internal = 1;
  physical_location = 8192;
  physical_pages = 3;
  list = [];
}

-- A table with the region 3.
abbrev one_region : Htable Shmem
one_region = record {
  total = 1;
  size = 2;
  percent = 80;
  table = some (record { address = 64; target = region 3 }) ∷ none ∷ [];
}

-- The first id whose search does not end: the key is 2147483600, and the probes of 64 slots, of which
-- none matches, overflow.
abbrev large_table : Htable Shmem
large_table = record one_region {
  size = 64;
  table = some (record { address = 64; target = region 3 }) ∷ no_entries 63;
}

stopped : retrieve 21474836 large_table ≡ halt
unfolding retrieve htable_retrieve position no_entries
stopped = refl
