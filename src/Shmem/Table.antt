-- ===== src/Shmem/Table.antt =====
-- The operations of kernel/shmem.c on the table: by id, by name, by position, and deletion.
mod Tests
use racoon.Base.{
  minus_one, is_negative, ℕ, zero, suc, ◌+◌, ◌-◌, ◌*◌, ◌/◌, ◌%◌, ◌^◌, Bool, true, false, not,
  Option, none, some, ltb, leb, ◌==◌, ◌&&◌, ◌||◌, if◌then◌else◌, List, [], ◌∷◌, ◌++◌, Status,
  success, failure, Outcome, ok, halt, fault, ◌>>=◌,
}
use racoon.Text.{Buffer, Sign, less, same, more, kstrncpy, kstrncmp}
use racoon.Ds.Htable.{Pointer, Slots, Htable, htable_remove, htable_get}
use racoon.Shmem.{
  name_length, is_immortal, ShmemInfo, Shmem, Call, replaced, freed, page_flags, shmem_key, Shmems,
}
use racoon.Shmem.Create.{retrieve}
use racoon.Shmem.Region.{Done, Mapping, shmem_grant, shmem_revoke, shmem_request, shmem_release}

-- A change of the object at an address.
pub write_target : ℕ → Shmem → Slots Shmem → Slots Shmem
write_target address sh [] = []
write_target address sh (none ∷ table) = none ∷ write_target address sh table
write_target address sh (some p ∷ table) =
    let rest = write_target address sh table in
    if p.address == address then some (record p { target = sh }) ∷ rest else some p ∷ rest

abbrev pub written : Pointer Shmem → Shmem → Shmems → Shmems
written p sh s = record s {
  shmem_table = record s.shmem_table { table = write_target p.address sh s.shmem_table.table };
}

-- The region of an id and an operation on it; -1 without the region.
pub on_region : ℕ → (Shmem → Done) → Shmems → Outcome (Status × Shmems × List Call)
unfolding write_target
on_region id op s = retrieve id s.shmem_table >>= λ entry. elim entry [
  | none ↦ ok (failure, s, [])
  | some p ↦ let (rc, sh, calls) = op p.target in ok (rc, written p sh s, calls)
]

pub grant_by_id : Bool → (owner id pid flags : ℕ) → Shmems → Outcome (Status × Shmems × List Call)
unfolding on_region
grant_by_id memory owner id pid flags s = on_region id (shmem_grant memory owner pid flags) s

-- The last result is whether interrupts are enabled.
pub revoke_by_id :
    (scratch owner pid id : ℕ) → Bool → Shmems → Outcome ((Status × Shmems × List Call) × Bool)
unfolding write_target
revoke_by_id scratch owner pid id enabled s = retrieve id s.shmem_table >>= λ entry. elim entry [
  | none ↦ ok ((failure, s, []), enabled)
  | some p ↦
      let ((rc, sh, calls), enabled') = shmem_revoke scratch owner pid enabled p.target in
      ok ((rc, written p sh s, calls), enabled')
]

pub request_by_id :
    (page_provide : ℕ → ℕ → ℕ → ℕ)
    → Bool
    → (pid id : ℕ) → Shmems
    → Outcome (Option Mapping × Shmems × List Call)
unfolding write_target
request_by_id page_provide memory pid id s = retrieve id s.shmem_table >>= λ entry. elim entry [
  | none ↦ ok (none, s, [])
  | some p ↦
      let (mapping, sh, calls) = shmem_request page_provide memory pid p.target in
      ok (mapping, written p sh s, calls)
]

pub release_by_id : (pid id : ℕ) → Shmems → Outcome (Status × Shmems × List Call)
unfolding on_region
release_by_id pid id s = on_region id (shmem_release pid) s

abbrev pub is_same : Sign → Bool
is_same less = false
is_same same = true
is_same more = false

-- The loop of `shmem_find` from entry `i` on: the id and the owner. As many rounds as there are
-- entries are enough, since `htable_get` answers NULL behind them.
pub find_from : ℕ → ℕ → Buffer → Htable Shmem → Option (ℕ × ℕ)
find_from zero i name t = none
find_from (suc k) i name t =
    let rest = find_from k (i + 1) name t in
    elim (htable_get t i) [
      | none ↦ none
      | some p ↦
          if is_same (kstrncmp name p.target.name name_length)
          then some (p.target.id, p.target.pid)
          else rest
    ]

pub shmem_find : Buffer → Shmems → Option (ℕ × ℕ)
unfolding find_from
shmem_find name s = find_from s.shmem_table.total 0 name s.shmem_table

-- The loop of `shmem_get`, which stops at entry `num`.
pub get_from : ℕ → ℕ → ℕ → Htable Shmem → Option (Pointer Shmem)
get_from zero i num t = none
get_from (suc k) i num t =
    let rest = get_from k (i + 1) num t in
    elim (htable_get t i) [
      | none ↦ none
      | some p ↦ if is_negative num || ltb num (i + 1) then some p else rest
    ]

-- What `shmem_get` writes through its pointers: the name, the owner, the pages and the flags.
pub shmem_get : ℕ → Buffer → Shmems → Option (Buffer × ℕ × ℕ × ℕ)
unfolding get_from
shmem_get num name s = elim (get_from s.shmem_table.total 0 num s.shmem_table) [
  | none ↦ none
  | some p ↦
      let sh = p.target in
      some (kstrncpy name sh.name name_length, sh.pid, sh.physical_pages, sh.flags)
]

-- `checkout` says whether `checkout_process` gives the process of a pid, and `room` whether `kmalloc` gives
-- the memory for a table.
module _ (room checkout : ℕ → Bool) (memory_alloc : ℕ → ℕ) where
  abbrev pub in_use : ShmemInfo → Bool
  in_use info = not ((info.usage == 0) || is_negative info.usage)

  -- The first loop of `shmem_delete`: the users, and how many are checked out.
  pub checked_out : ℕ → List ShmemInfo → List ShmemInfo × ℕ
  checked_out pages [] = ([], 0)
  checked_out pages (info ∷ list) =
      let (rest, usage) = checked_out pages list in
      let marked = record info { tmp = true; tmp2 = memory_alloc pages } in
      if not (in_use info)
      then (info ∷ rest, usage)
      else if checkout info.pid
      then (marked ∷ rest, usage + 1)
      else (record info { tmp = false } ∷ rest, usage)

  -- The second loop: the copies that are mapped in.
  pub scratch_calls : ℕ → List ShmemInfo → List Call
  scratch_calls pages [] = []
  scratch_calls pages (info ∷ list) =
      let rest = scratch_calls pages list in
      if info.tmp && not (info.tmp2 == 0)
      then replaced info.pid info.tmp2 info.virtual_location pages (page_flags info.flags) ∷ rest
      else rest

  -- The third loop reads the link of a user that it has freed.
  pub free_users : List ShmemInfo → Outcome (List Call)
  free_users [] = ok []
  free_users (info ∷ list) = fault

  pub shmem_delete : ℕ → (owner id : ℕ) → Shmems → Outcome (Status × Shmems × List Call)
  unfolding checked_out scratch_calls free_users
  shmem_delete depth owner id s = retrieve id s.shmem_table >>= λ entry. elim entry [
    | none ↦ ok (failure, s, [])
    | some p ↦ if not (owner == p.target.pid) then ok (failure, s, []) else (do
      (rc, table) ← htable_remove room shmem_key depth p s.shmem_table
      let sh = p.target
      let (users, usage) = checked_out sh.physical_pages sh.list
      let calls = if ltb 0 usage then scratch_calls sh.physical_pages users else []
      let memory =
          if sh.internal == 0 then [] else freed sh.physical_pages sh.physical_location ∷ []
      elim rc [
        | failure ↦ halt
        | success ↦ (do
          commits ← free_users users
          ok (success, record s { shmem_table = table }, calls ++ commits ++ memory))
      ])
  ]

  abbrev pub orphaned : Shmem → Shmem
  orphaned sh = record sh { flags = if sh.flags / 32 % 2 == 1 then sh.flags else sh.flags + 32 }

  -- The loop of `shmem_clean` from entry `i` on; behind `fuel` rounds a `fault`.
  pub clean_from : ℕ → ℕ → ℕ → ℕ → Shmems → Outcome (Status × Shmems × List Call)
  unfolding shmem_delete write_target
  clean_from zero depth pid i s = fault
  clean_from (suc fuel) depth pid i s =
      let next = clean_from fuel depth pid (i + 1) in
      let again = clean_from fuel depth pid 0 in
      elim (htable_get s.shmem_table i) [
        | none ↦ ok (success, s, [])
        | some p ↦
            let sh = p.target in
            if not (sh.pid == pid)
            then next s
            else if is_immortal sh.flags
            then next (written p (orphaned sh) s)
            else (do
              (rc, s', calls) ← shmem_delete depth pid sh.id s
              elim rc [
                | failure ↦ ok (failure, s', calls)
                | success ↦ (do (rc', s'', later) ← again s'; ok (rc', s'', calls ++ later))
              ])
      ]

  pub shmem_clean : ℕ → ℕ → ℕ → Shmems → Outcome (Status × Shmems × List Call)
  unfolding clean_from
  shmem_clean fuel depth pid s = clean_from fuel depth pid 0 s
