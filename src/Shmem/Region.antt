-- ===== src/Shmem/Region.antt =====
-- What the operations of kernel/shmem.c do to one region, once it has been found.
pub mod Users
pub mod Access
pub mod Balance
mod Tests
use racoon.Base.{
  is_negative, minus_one, ℕ, zero, suc, ◌+◌, ◌-◌, ◌*◌, ◌/◌, ◌%◌, ◌^◌, Bool, true, false, not,
  Option, none, some, ltb, leb, ◌==◌, ◌&&◌, ◌||◌, if◌then◌else◌, List, [], ◌∷◌, ◌++◌, u32, add32,
  sub32, Status, success, failure,
}
use racoon.Shmem.{
  masked, is_writable, is_promiscuous, ShmemInfo, Shmem, page_flags, Call, provided, replaced,
  released, freed, committed,
}

-- The loops that look for the user `pid`.
pub find_info : ℕ → List ShmemInfo → Option ShmemInfo
find_info pid [] = none
find_info pid (info ∷ list) =
    let rest = find_info pid list in if info.pid == pid then some info else rest

-- The same object after a change, and the list without it.
pub set_info : ShmemInfo → List ShmemInfo → List ShmemInfo
set_info new [] = []
set_info new (info ∷ list) =
    let rest = set_info new list in if info.pid == new.pid then new ∷ list else info ∷ rest

pub remove_info : ℕ → List ShmemInfo → List ShmemInfo
remove_info pid [] = []
remove_info pid (info ∷ list) =
    let rest = remove_info pid list in if info.pid == pid then list else info ∷ rest

-- A user that has not mapped the region in.
abbrev pub new_info : ℕ → ℕ → ShmemInfo
new_info pid flags = record {
  pid = pid;
  virtual_location = 0;
  virtual_pages = minus_one;
  flags = masked flags;
  usage = 0;
  tmp = false;
  tmp2 = 0;
}

abbrev pub with_list : Shmem → List ShmemInfo → Shmem
with_list sh list = record sh { list = list }

-- The result of an operation: the returned status, the region, and the calls.
abbrev pub Done : Type 0
Done = Status × Shmem × List Call

-- `shmem_grant`; `memory` says whether `kmalloc` gives the structure.
pub shmem_grant : Bool → ℕ → ℕ → ℕ → Shmem → Done
unfolding find_info
shmem_grant memory owner pid flags sh =
    let granted = with_list sh (new_info pid flags ∷ sh.list) in
    if not (owner == sh.pid) then (failure, sh, []) else elim (find_info pid sh.list) [
      | some info ↦ (failure, sh, [])
      | none ↦ if memory then (success, granted, []) else (failure, sh, [])
    ]

-- `shmem_revoke`, of the process `pid`; `scratch` is the answer of `memory_alloc`, and the last result
-- is whether interrupts are enabled, which the fourth argument says of the call.
pub shmem_revoke : ℕ → ℕ → ℕ → Bool → Shmem → Done × Bool
unfolding find_info remove_info
shmem_revoke scratch owner pid enabled sh =
    let unlinked = with_list sh (remove_info pid sh.list) in
    if not (owner == sh.pid) then ((failure, sh, []), enabled) else elim (find_info pid sh.list) [
      | none ↦ ((failure, sh, []), enabled)
      | some info ↦
          if (info.usage == 0) || is_negative info.usage
          then ((success, unlinked, []), enabled)
          else if scratch == 0
          then ((failure, sh, []), false)
          else (
            (
              success,
              unlinked,
              replaced pid scratch info.virtual_location info.virtual_pages (page_flags info.flags)
                  ∷ [],
            ),
            enabled,
          )
    ]

-- What `shmem_request` answers through its pointers: `*location`, `*pages` and `*flags`.
abbrev pub Mapping : Type 0
Mapping = ℕ × ℕ × ℕ

abbrev pub mapping_of : ShmemInfo → Mapping
mapping_of info = (info.virtual_location, info.virtual_pages, info.flags)

-- The user that is there, or a new one where the region is promiscuous and `kmalloc` gives the memory.
pub user_of : Bool → ℕ → Shmem → Option (ShmemInfo × Shmem)
unfolding find_info
user_of memory pid sh =
    let info = new_info pid sh.flags in
    elim (find_info pid sh.list) [
      | some info' ↦ some (info', sh)
      | none ↦
          if is_promiscuous sh.flags && memory
          then some (info, with_list sh (info ∷ sh.list))
          else none
    ]

abbrev pub use_once : ShmemInfo → ShmemInfo
use_once info = record info { usage = add32 info.usage 1 }

-- `page_provide` is the answer of that function for the pages and the flags.
pub shmem_request :
    (page_provide : ℕ → ℕ → ℕ → ℕ) → Bool → ℕ → Shmem → Option Mapping × Shmem × List Call
unfolding user_of set_info
shmem_request page_provide memory pid sh = elim (user_of memory pid sh) [
  | none ↦ (none, sh, [])
  | some (info, sh') ↦
      let tmp = page_flags info.flags in
      let location = page_provide sh.physical_location sh.physical_pages tmp in
      let mapped =
        use_once (record info { virtual_location = location; virtual_pages = sh.physical_pages }) in
      let again = use_once info in
      if not (is_negative info.virtual_pages)
      then (some (mapping_of again), with_list sh' (set_info again sh'.list), [])
      else if location == 0
      then (none, sh', [])
      else (
        some (mapping_of mapped),
        with_list sh' (set_info mapped sh'.list),
        provided pid sh.physical_location sh.physical_pages tmp ∷ [],
      )
]

-- `shmem_release`
pub shmem_release : ℕ → Shmem → Done
unfolding find_info set_info
shmem_release pid sh = elim (find_info pid sh.list) [
  | none ↦ (failure, sh, [])
  | some info ↦
      let less = record info { usage = sub32 info.usage 1 } in
      let unmapped = record less { virtual_location = 0; virtual_pages = minus_one } in
      if less.usage == 0
      then (
        success,
        with_list sh (set_info unmapped sh.list),
        released pid info.virtual_location info.virtual_pages ∷ [],
      )
      else (success, with_list sh (set_info less sh.list), [])
]
