-- ===== src/Shmem/Region/Tests.antt =====
-- The operations on one small region.
use racoon.Base.{minus_one, ℕ, ◌≡◌, refl, arith, true, false, some, [], ◌∷◌, success, failure}
use racoon.Shmem.{ShmemInfo, Shmem}
use racoon.Shmem.Region.{
  find_info, new_info, mapping_of, shmem_grant, shmem_revoke, shmem_request, shmem_release, user_of,
}
use racoon.Shmem.Region.Access.{shmem_grant_lem, shmem_revoke_lem, Granted, Revoked, IsRestored}
use racoon.Shmem.Region.Balance.{shmem_release-shmem_request}
use racoon.Shmem.Region.Users.{users_of}

-- Process 7 has three pages mapped in at 4096, process 8 has not.
abbrev user : ShmemInfo
user = record {
  pid = 7;
  virtual_location = 4096;
  virtual_pages = 3;
  flags = 1;
  usage = 1;
  tmp = false;
  tmp2 = 0;
}

abbrev region : Shmem
region = record {
  id = 0;
  name = λ i. 0;
  pid = 5;
  flags = 0;
  internal = 1;
  physical_location = 8192;
  physical_pages = 3;
  list = user ∷ new_info 8 1 ∷ [];
}

abbrev page_provide : ℕ → ℕ → ℕ → ℕ
page_provide location pages flags = 16384

-- A release that no request came before leaves a usage of -1, so the request behind it leaves a usage
-- of 0 of pages that are mapped in, which no release releases.
unbalanced : shmem_release 8 (shmem_request page_provide true 8 (shmem_release 8 region).1).1 ≡ (
  success,
  record region {
    list =
        user
        ∷ record (new_info 8 1) { virtual_location = 16384; virtual_pages = 3; usage = minus_one }
        ∷ [];
  },
  [],
)
unfolding shmem_release shmem_request user_of
unbalanced = refl

-- A revoke without memory for the copy leaves interrupts disabled.
no_scratch : shmem_revoke 0 5 7 true region ≡ ((failure, region, []), false)
unfolding shmem_revoke
no_scratch = refl

shmem_grant_example : Granted 5 9 3 region (shmem_grant true 5 9 3 region)
shmem_grant_example = shmem_grant_lem true 5 9 3 region

shmem_revoke_example :
    Revoked 5 7 region (shmem_revoke 4096 5 7 true region).0
    × IsRestored 4096 true (shmem_revoke 4096 5 7 true region)
unfolding users_of
shmem_revoke_example = shmem_revoke_lem 4096 5 7 true region (omega arith)

shmem_request_example :
    ((shmem_request page_provide true 7 region).0 ≡ some (mapping_of user))
    × (shmem_release 7 (shmem_request page_provide true 7 region).1 ≡ (success, region, []))
unfolding find_info
shmem_request_example =
    shmem_release-shmem_request page_provide true region user refl refl (omega arith) (omega arith)
