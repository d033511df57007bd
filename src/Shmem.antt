-- ===== src/Shmem.antt =====
-- kernel/shmem.c: regions of shared memory. A region is an object that the hash table of kernel/ds
-- points to; its users are a list, the latest first. An int is the word of its 32 bits. The locks are
-- held through each call, so they do not appear; the calls that the operations make of the paging code
-- and of the page allocator are listed.
pub mod Region
pub mod Table
pub mod Create
use racoon.Base.{
  minus_one, is_negative, ℕ, zero, suc, ◌+◌, ◌-◌, ◌*◌, ◌/◌, ◌%◌, ◌^◌, Bool, true, false, not,
  Option, none, some, ltb, leb, ◌==◌, ◌&&◌, if◌then◌else◌, List, [], ◌∷◌, ◌++◌, u32, add32, sub32,
  Status, success, failure, Outcome, ok, fault, ◌>>=◌,
}
use racoon.Text.{Buffer, Sign, less, same, more, kstrlen, kstrncpy, kstrncmp}
use racoon.Ds.Htable.{
  Pointer, Slots, Htable, init_htable, htable_insert, htable_remove, htable_retrieve, htable_get,
}

-- `SMK_NAME_LENGTH`
abbrev pub name_length : ℕ
name_length = 64

-- `flags & SHMEM_MASK`, and the tests of SHMEM_RDWR, SHMEM_IMMORTAL and SHMEM_PROMISCUOUS.
abbrev pub masked : ℕ → ℕ
masked flags = flags % 8

abbrev pub is_writable : ℕ → Bool
is_writable flags = flags % 2 == 1

abbrev pub is_immortal : ℕ → Bool
is_immortal flags = flags / 2 % 2 == 1

abbrev pub is_promiscuous : ℕ → Bool
is_promiscuous flags = flags / 4 % 2 == 1

-- `struct shmem_info`; `tmp` says whether the process is checked out.
pub record ShmemInfo : Type 0 where
  pub pid : ℕ
  pub virtual_location : ℕ
  pub virtual_pages : ℕ
  pub flags : ℕ
  pub usage : ℕ
  pub tmp : Bool
  pub tmp2 : ℕ

-- `struct shmem`
pub record Shmem : Type 0 where
  pub id : ℕ
  pub name : Buffer
  pub pid : ℕ
  pub flags : ℕ
  pub internal : ℕ
  pub physical_location : ℕ
  pub physical_pages : ℕ
  pub list : List ShmemInfo

-- USER_PAGE | READ_WRITE, or USER_PAGE | READ_ONLY.
abbrev pub page_flags : ℕ → ℕ
page_flags flags = if is_writable flags then 6 else 5

-- The calls of `page_provide`, `page_direct_map` behind a copy of the memory, `page_release`,
-- `memory_free`, and `commit_process`.
pub data Call : Type 0 where
  provided : (pid location pages flags : ℕ) → Call
  replaced : (pid scratch location pages flags : ℕ) → Call
  released : (pid location pages : ℕ) → Call
  freed : (pages location : ℕ) → Call
  committed : (pid : ℕ) → Call

-- `shmem_key`, without its sign.
abbrev pub shmem_key : Shmem → ℕ
shmem_key sh = let key = u32 (sh.id * 100) in if is_negative key then 2 ^ 32 - key else key

-- `shmem_table` and `shmem_id`
pub record Shmems : Type 0 where
  pub shmem_table : Htable Shmem
  pub shmem_id : ℕ

pub shmem_init : Shmems
shmem_init = record { shmem_table = init_htable 64 80; shmem_id = 0 }
