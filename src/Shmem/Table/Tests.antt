-- ===== src/Shmem/Table/Tests.antt =====
-- Regions in a small table.
use racoon.Base.{
  ℕ, ◌≡◌, refl, true, none, some, List, [], ◌∷◌, success, ok, fault, ◌==◌, if◌then◌else◌,
}
use racoon.Text.{Buffer}
use racoon.Ds.Htable.{position, htable_remove, htable_retrieve, htable_get}
use racoon.Shmem.{ShmemInfo, Shmem, Shmems, freed}
use racoon.Shmem.Region.{new_info}
use racoon.Shmem.Create.{retrieve}
use racoon.Shmem.Table.{shmem_delete, shmem_clean}

-- The name "m".
abbrev name : Buffer
name i = if i == 0 then 109 else 0

abbrev region : List ShmemInfo → Shmem
region list = record {
  id = 3;
  name = name;
  pid = 5;
  flags = 0;
  internal = 1;
  physical_location = 8192;
  physical_pages = 3;
  list = list;
}

abbrev one_region : List ShmemInfo → Shmems
one_region list = record {
  shmem_table = record {
    total = 1;
    size = 2;
    percent = 80;
    table = some (record { address = 64; target = region list }) ∷ none ∷ [];
  };
  shmem_id = 4;
}

abbrev no_region : Shmems
no_region = record (one_region []) {
  shmem_table = record { total = 0; size = 2; percent = 80; table = none ∷ none ∷ [] };
}

abbrev gives : ℕ → ℕ
gives pages = 4096

deleted :
    shmem_delete (λ bytes. true) (λ pid. true) gives 1 5 3 (one_region [])
    ≡ ok (success, no_region, freed 3 8192 ∷ [])
unfolding shmem_delete retrieve htable_retrieve htable_remove position
deleted = refl

cleaned :
    shmem_clean (λ bytes. true) (λ pid. true) gives 2 1 5 (one_region [])
    ≡ ok (success, no_region, freed 3 8192 ∷ [])
unfolding shmem_clean retrieve htable_retrieve htable_remove htable_get position
cleaned = refl

-- The link of a freed user is read.
with_user :
    shmem_delete (λ bytes. true) (λ pid. true) gives 1 5 3 (one_region (new_info 8 1 ∷ [])) ≡ fault
unfolding shmem_delete retrieve htable_retrieve htable_remove position
with_user = refl
