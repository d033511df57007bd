-- ===== src/Shmem/Create.antt =====
-- The regions of the table: creation, the search by name, the operations by id, and deletion.
pub mod Free
mod Tests
use racoon.Base.{
  is_negative, ℕ, zero, suc, ◌+◌, ◌-◌, ◌*◌, ◌/◌, ◌%◌, ◌^◌, Bool, true, false, not, Option, none,
  some, ltb, leb, ◌==◌, ◌&&◌, ◌||◌, if◌then◌else◌, List, [], ◌∷◌, ◌++◌, u32, add32, sub32, Status,
  success, failure, Outcome, ok, fault, ◌>>=◌, map,
}
use racoon.Text.{Buffer, Sign, less, same, more, kstrlen, kstrncpy, kstrncmp}
use racoon.Ds.Htable.{
  Pointer, Slots, Htable, htable_insert, htable_remove, htable_retrieve, htable_get,
}
use racoon.Shmem.{
  name_length, masked, is_immortal, ShmemInfo, Shmem, Call, replaced, freed, committed, page_flags,
  shmem_key, Shmems,
}
use racoon.Shmem.Region.{Done}

-- `htable_retrieve( shmem_table, &sample )`
unfoldable pub retrieve : ℕ → Htable Shmem → Outcome (Option (Pointer Shmem))
retrieve id table =
    let key = u32 (id * 100) in
    htable_retrieve (λ sh. sh.id == id) (if is_negative key then 2 ^ 32 - key else key) table

-- `shmem_id++`, with the roll over.
abbrev pub after_id : ℕ → ℕ
after_id id = if is_negative (add32 id 1) then 0 else add32 id 1

-- The loop that looks for an id that is free: the id, and the next `shmem_id`; behind `fuel` rounds a
-- `fault`.
pub free_id : ℕ → Htable Shmem → ℕ → Outcome (ℕ × ℕ)
unfolding retrieve
free_id zero table id = fault
free_id (suc fuel) table id =
    let rest = free_id fuel table (after_id id) in
    retrieve id table >>= λ entry. elim entry [ none ↦ ok (id, after_id id) | some p ↦ rest ]

-- The new region without its id. `kstrncpy` is into memory that held `memory`.
abbrev pub new_region : Buffer → Buffer → ℕ → ℕ → ℕ → ℕ → ℕ → Shmem
new_region memory name pid pages flags location internal = record {
  id = 0;
  name = kstrncpy memory name name_length;
  pid = pid;
  flags = masked flags;
  internal = internal;
  physical_location = location;
  physical_pages = pages;
  list = [];
}

-- `shmem_create_direct`: `room` is for the table, `name_size` is `kstrlen( name )`, `address` the answer of `kmalloc` with what
-- the memory held, and the result the id, or `none` for -1. As in the code, the result of
-- `htable_insert` is not looked at.
pub shmem_create_direct :
    (room : ℕ → Bool)
    → (fuel depth name_size : ℕ) → Option (ℕ × Buffer)
    → Buffer
    → (pid pages flags location internal : ℕ) → Shmems
    → Outcome (Option ℕ × Shmems)
unfolding free_id
shmem_create_direct room fuel depth name_size kmalloc name pid pages flags location internal s =
    if (pages == 0) || is_negative pages
    then ok (none, s)
    else if name_size == 0
    then ok (none, s)
    else elim kmalloc [
      | none ↦ ok (none, s)
      | some (address, memory) ↦ do
        (id, next) ← free_id fuel s.shmem_table s.shmem_id
        let sh = record (new_region memory name pid pages flags location internal) { id = id }
        (rc, table) ←
            htable_insert room shmem_key depth (record { address = address; target = sh })
              s.shmem_table
        ok (some id, record { shmem_table = table; shmem_id = next })
    ]

-- `shmem_create`; the second result is the calls, here `memory_free` of what `memory_alloc` gave.
pub shmem_create :
    (room : ℕ → Bool)
    → (fuel depth name_size : ℕ) → Option (ℕ × Buffer)
    → Buffer
    → (pid pages flags location : ℕ) → Shmems
    → Outcome (Option ℕ × List Call × Shmems)
unfolding shmem_create_direct
shmem_create room fuel depth name_size kmalloc name pid pages flags location s =
    if location == 0 then ok (none, [], s) else (do
      (id, s') ←
          shmem_create_direct room fuel depth name_size kmalloc name pid pages flags location 1 s
      ok (elim id [ none ↦ (none, freed pages location ∷ [], s') | some i ↦ (some i, [], s') ]))
