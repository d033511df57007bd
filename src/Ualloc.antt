-- ===== src/Ualloc.antt =====
-- kernel/ualloc.c and include/ualloc.h: the memory of a process. Its regions are a linked list, here a
-- list, the first first; a region of the list has the process as its parent, so the field does not
-- appear. What `kmalloc`, `memory_alloc`, `page_provide` and `page_ensure` return are lists of results,
-- taken in turn; the calls are listed in their order. kernel/ioperms.c sets a flag of a process.
pub mod Release
pub mod Ensure
mod Tests
use racoon.Base.{
  ℕ, zero, suc, ◌+◌, ◌-◌, ◌*◌, ◌/◌, ◌%◌, ◌^◌, Bool, true, false, not, Option, none, some, ltb, leb,
  ◌==◌, ◌&&◌, ◌||◌, if◌then◌else◌, List, [], ◌∷◌, ◌++◌, u32, Outcome, ok, halt, fault, ◌>>=◌, ◌>>◌,
  assert, set_bit, clear_bit, is_negative,
}

-- The results, from libsmk/smk/err.h.
pub data Code : Type 0 where
  smk_ok smk_nomem smk_not_found smk_requested_nothing smk_not_aligned : Code

-- `PAGE_SIZE`, `sK_BASE` and `sK_CEILING`; USER_PAGE | READ_WRITE is 6.
abbrev pub page_size : ℕ
page_size = 4096

abbrev pub sk_base : ℕ
sk_base = 2147483648

abbrev pub sk_ceiling : ℕ
sk_ceiling = 4194304000

-- `struct allocated_memory` at the address `at`.
pub record Region : Type 0 where
  pub at : ℕ
  pub pages : ℕ
  pub flags : ℕ
  pub phys : ℕ
  pub virt : ℕ
  pub shared : ℕ

-- The fields of `struct process` that these files use.
pub record Process : Type 0 where
  pub map : ℕ
  pub flags : ℕ
  pub alloc : List Region

pub data Call : Type 0 where
  memory_freed : (pages location : ℕ) → Call
  provided : (map location base ceiling pages : ℕ) → Call
  ensured : (map virtual pages : ℕ) → Call
  page_released : (map virtual pages : ℕ) → Call
  freed : (ptr : ℕ) → Call

-- Without a result left, a call returns 0.
pub record Machine : Type 0 where
  pub supply : List ℕ
  pub memory : List ℕ
  pub found : List ℕ
  pub calls : List Call

abbrev pub called : Call → Machine → Machine
called call m = record m { calls = m.calls ++ (call ∷ []) }

pub first_result : List ℕ → ℕ × List ℕ
first_result [] = (0, [])
first_result (p ∷ results) = (p, results)

pub kmalloc : Machine → ℕ × Machine
unfolding first_result
kmalloc m = let (p, supply) = first_result m.supply in (p, record m { supply = supply })

pub memory_alloc : Machine → ℕ × Machine
unfolding first_result
memory_alloc m = let (p, memory) = first_result m.memory in (p, record m { memory = memory })

-- A call of `page_provide` or of `page_ensure`.
pub page_call : Call → Machine → ℕ × Machine
unfolding first_result
page_call call m =
    let (found, rest) = first_result m.found in (found, called call (record m { found = rest }))

-- A region in front of those of the process.
abbrev pub with_region : Process → (at pages flags phys virt : ℕ) → Process
with_region proc at pages flags phys virt = record proc {
  alloc =
      record { at = at; pages = pages; flags = flags; phys = phys; virt = virt; shared = 0 }
      ∷ proc.alloc;
}

-- The second result is what is stored at `ptr`, if anything.
abbrev pub Given : Type 0
Given = Code × Option ℕ × Process × Machine

pub user_alloc : Process → (pages : ℕ) → Machine → Given
unfolding memory_alloc kmalloc page_call
user_alloc proc pages m =
    let (location, m1) = memory_alloc m in
    let (mem, m2) = kmalloc m1 in
    let (found, m3) = page_call (provided proc.map location sk_base sk_ceiling pages) m2 in
    if pages == 0
    then (smk_requested_nothing, none, proc, m)
    else if location == 0
    then (smk_nomem, none, proc, m1)
    else if mem == 0
    then (smk_nomem, none, proc, called (memory_freed pages location) m2)
    else if found == 0
    then (smk_nomem, none, proc, called (freed mem) (called (memory_freed pages location) m3))
    else (smk_ok, some location, with_region proc mem pages 0 location found, m3)

-- `found` is unsigned, so the test of `found < 0` fails always.
pub user_alloc_hard : Process → (virtual pages : ℕ) → Machine → Outcome (Code × Process × Machine)
unfolding memory_alloc kmalloc page_call
user_alloc_hard proc virtual pages m =
    let (location, m1) = memory_alloc m in
    let (mem, m2) = kmalloc m1 in
    let (found, m3) = page_call (ensured proc.map virtual pages) m2 in
    assert (not (pages == 0))
    >> (if location == 0
        then ok (smk_nomem, proc, m1)
        else if mem == 0
        then ok (smk_nomem, proc, called (memory_freed pages location) m2)
        else (do assert (found == 0); ok (smk_ok, with_region proc mem pages 0 location found, m3)))

-- The loops that look for a region.
pub find_region : ℕ → List Region → Option Region
find_region ptr [] = none
find_region ptr (mem ∷ alloc) =
    let rest = find_region ptr alloc in if mem.virt == ptr then some mem else rest

-- The list without the region that the loop finds.
pub remove_region : ℕ → List Region → List Region
remove_region ptr [] = []
remove_region ptr (mem ∷ alloc) =
    let rest = remove_region ptr alloc in if mem.virt == ptr then alloc else mem ∷ rest

-- Not shared, and without UALLOC_NORELEASE: `mem->shared > 0` is of an int.
abbrev pub is_released : Region → Bool
is_released mem = (mem.shared == 0 || is_negative mem.shared) && mem.flags % 2 == 0

-- The calls of `user_free` for a region.
abbrev pub free_calls : ℕ → Region → List Call
free_calls map mem =
    if is_released mem
    then memory_freed mem.pages mem.phys ∷ page_released map mem.virt mem.pages ∷ freed mem.at ∷ []
    else page_released map mem.virt mem.pages ∷ []

pub user_free : Process → (ptr : ℕ) → Machine → Code × Process × Machine
user_free proc ptr m = elim (find_region ptr proc.alloc) [
  | none ↦ (smk_not_found, proc, m)
  | some mem ↦ (
    smk_ok,
    record proc { alloc = remove_region ptr proc.alloc },
    record m { calls = m.calls ++ free_calls proc.map mem },
  )
]

pub user_size : Process → (ptr : ℕ) → Code × Option ℕ
user_size proc ptr = elim (find_region ptr proc.alloc) [
  | none ↦ (smk_not_found, none)
  | some mem ↦ (smk_ok, some (u32 (mem.pages * page_size)))
]

pub user_location : Process → (ptr : ℕ) → Code × Option ℕ
user_location proc ptr = elim (find_region ptr proc.alloc) [
  | none ↦ (smk_not_found, none)
  | some mem ↦ (smk_ok, some mem.phys)
]

-- The result of `kmalloc` is not tested: without memory the write is to address 0.
pub user_map : Process → (ptr pages : ℕ) → Machine → Outcome Given
unfolding kmalloc page_call
user_map proc ptr pages m =
    let (found, m1) = page_call (provided proc.map ptr sk_base sk_ceiling pages) m in
    let (mem, m2) = kmalloc m1 in
    if pages == 0
    then ok (smk_requested_nothing, none, proc, m)
    else if not (ptr % page_size == 0)
    then ok (smk_not_aligned, none, proc, m)
    else if found == 0
    then ok (smk_ok, some 0, proc, m1)
    else if mem == 0
    then fault
    else ok (smk_ok, some found, with_region proc mem pages 1 ptr found, m2)

-- The loop of `user_release_all` in `fuel` rounds; `none` means that they do not suffice.
pub user_release_all : (fuel : ℕ) → Process → Machine → Option (Process × Machine)
user_release_all zero proc m = none
user_release_all (suc fuel) proc m = elim proc.alloc [
  | [] ↦ some (proc, m)
  | mem ∷ alloc ↦ let (rc, proc', m') = user_free proc mem.virt m in user_release_all fuel proc' m'
]

-- kernel/ioperms.c: IOPRIV is the bit 0 of the flags.
pub io_grant_priv : Process → Process
io_grant_priv proc = record proc { flags = set_bit proc.flags 0 }

pub io_revoke_priv : Process → Process
io_revoke_priv proc = record proc { flags = clear_bit proc.flags 0 }
