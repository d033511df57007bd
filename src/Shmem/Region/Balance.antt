-- ===== src/Shmem/Region/Balance.antt =====
-- Requests and releases of a region by the same process.
use racoon.Base.{
  is_negative, minus_one, ℕ, suc, ◌+◌, ◌^◌, ◌<◌, ◌≡◌, refl, ap, ◌∙◌, arith, Bool, false, some, ◌==◌,
  [], ◌∷◌, add32, sub32, success,
}
use racoon.Shmem.{page_flags, ShmemInfo, Shmem, released, provided}
use racoon.Shmem.Region.{
  find_info, set_info, with_list, use_once, user_of, shmem_request, shmem_release, mapping_of,
}
use racoon.Shmem.Region.Users.{find_info-set_info, set_info-set_info, set_info_same}

-- A user that has not mapped the region in.
abbrev pub idle_info : ℕ → ℕ → Bool → ℕ → ShmemInfo
idle_info pid flags tmp tmp2 = record {
  pid = pid;
  virtual_location = 0;
  virtual_pages = minus_one;
  flags = flags;
  usage = 0;
  tmp = tmp;
  tmp2 = tmp2;
}

module _ (page_provide : ℕ → ℕ → ℕ → ℕ) (memory : Bool) (sh : Shmem) where
  user_of_found :
      (pid : ℕ) (info : ShmemInfo)
      → find_info pid sh.list ≡ some info
      → user_of memory pid sh ≡ some (info, sh)
  unfolding user_of
  user_of_found pid info found = rw (found, user_of) refl

  request_mapped :
      (info : ShmemInfo)
      → find_info info.pid sh.list ≡ some info
      → is_negative info.virtual_pages ≡ false
      → shmem_request page_provide memory info.pid sh
        ≡ (some (mapping_of info), with_list sh (set_info (use_once info) sh.list), [])
  unfolding shmem_request
  request_mapped info found mapped =
      rw (user_of_found info.pid info found, shmem_request) (rw mapped refl)

  request_idle :
      (pid flags : ℕ) (tmp : Bool) (tmp2 location : ℕ)
      → find_info pid sh.list ≡ some (idle_info pid flags tmp tmp2)
      → page_provide sh.physical_location sh.physical_pages (page_flags flags) ≡ suc location
      → shmem_request page_provide memory pid sh ≡ (
        some (suc location, sh.physical_pages, flags),
        with_list sh (
            set_info
              (record (idle_info pid flags tmp tmp2) {
                virtual_location = suc location;
                virtual_pages = sh.physical_pages;
                usage = 1;
              })
              sh.list),
        provided pid sh.physical_location sh.physical_pages (page_flags flags) ∷ [],
      )
  unfolding shmem_request
  request_idle pid flags tmp tmp2 location found given =
      let given_any : (suc location == 0) ≡ false = ground arith in
      rw (user_of_found pid (idle_info pid flags tmp tmp2) found, shmem_request)
        (rw given (rw given_any refl))

  release_last :
      (info : ShmemInfo)
      → find_info info.pid sh.list ≡ some info
      → info.usage ≡ 1
      → shmem_release info.pid sh ≡ (
        success,
        with_list sh (
            set_info
              (record info { virtual_location = 0; virtual_pages = minus_one; usage = 0 })
              sh.list),
        released info.pid info.virtual_location info.virtual_pages ∷ [],
      )
  unfolding shmem_release
  release_last info found one = rw (found, shmem_release) (rw one refl)

  release_more :
      (info : ShmemInfo)
      → find_info info.pid sh.list ≡ some info
      → (sub32 info.usage 1 == 0) ≡ false
      → shmem_release info.pid sh ≡ (
        success,
        with_list sh (set_info (record info { usage = sub32 info.usage 1 }) sh.list),
        [],
      )
  unfolding shmem_release
  release_more info found more = rw (found, shmem_release) (rw more refl)

module _ (page_provide : ℕ → ℕ → ℕ → ℕ) (memory : Bool) (sh : Shmem) where
  -- A request of a user that has the region mapped in answers the mapping that it has, and the
  -- release that follows restores the region without a call of the paging code.
  pub shmem_release-shmem_request :
      (info : ShmemInfo)
      → find_info info.pid sh.list ≡ some info
      → is_negative info.virtual_pages ≡ false
      → 0 < info.usage
      → info.usage + 1 < 2 ^ 32
      → ((shmem_request page_provide memory info.pid sh).0 ≡ some (mapping_of info))
        × (shmem_release info.pid (shmem_request page_provide memory info.pid sh).1
            ≡ (success, sh, []))
  shmem_release-shmem_request info found mapped used bound =
      let again = set_info (use_once info) sh.list in
      let back : sub32 (add32 info.usage 1) 1 ≡ info.usage = omega (arith, used, bound) in
      rw (request_mapped page_provide memory sh info found mapped) (
        refl,
        release_more page_provide memory (with_list sh again) (use_once info)
              (find_info-set_info (use_once info) info sh.list found) (ground (arith, used, back))
            ∙ ap (λ list. (success, with_list sh list, []))
                (set_info-set_info (use_once info)
                    (record info { usage = sub32 (add32 info.usage 1) 1 }) sh.list refl
                  ∙ ap (λ u. set_info (record info { usage = u }) sh.list) back
                  ∙ set_info_same info sh.list found),
      )

  -- The first request of a user maps all pages of the region in, and the release that follows
  -- releases just these pages and restores the region.
  pub shmem_release-shmem_request_idle :
      (pid flags : ℕ) (tmp : Bool) (tmp2 location : ℕ)
      → find_info pid sh.list ≡ some (idle_info pid flags tmp tmp2)
      → page_provide sh.physical_location sh.physical_pages (page_flags flags) ≡ suc location
      → ((shmem_request page_provide memory pid sh).0
          ≡ some (suc location, sh.physical_pages, flags))
        × (shmem_release pid (shmem_request page_provide memory pid sh).1
            ≡ (success, sh, released pid (suc location) sh.physical_pages ∷ []))
  shmem_release-shmem_request_idle pid flags tmp tmp2 location found given =
      let info = idle_info pid flags tmp tmp2 in
      let mapped : ShmemInfo = record info {
        virtual_location = suc location;
        virtual_pages = sh.physical_pages;
        usage = 1;
      } in
      rw (request_idle page_provide memory sh pid flags tmp tmp2 location found given) (
        refl,
        release_last page_provide memory (with_list sh (set_info mapped sh.list)) mapped
              (find_info-set_info mapped info sh.list found) refl
            ∙ ap
                (λ list.
                  (success, with_list sh list, released pid (suc location) sh.physical_pages ∷ []))
                (set_info-set_info mapped info sh.list refl ∙ set_info_same info sh.list found),
      )
