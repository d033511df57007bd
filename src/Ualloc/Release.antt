-- ===== src/Ualloc/Release.antt =====
-- `user_free` and `user_release_all` of kernel/ualloc.c give back what the process has.
use mathlib.Core.List.{append_assoc, append-nil}
use racoon.Base.{
  ℕ, suc, ◌*◌, ◌%◌, ◌^◌, ltb, ◌==◌, ◌&&◌, ◌||◌, not, Bool, true, false, if◌then◌else◌, Bool-cases,
  inl, inr, ◌≡◌, ◌≢◌, refl, ap, sym, ◌∙◌, arith, List, [], ◌∷◌, ◌++◌, none, some, length, u32,
}
use racoon.Ualloc.{
  Code, smk_ok, smk_not_found, Region, Process, Call, memory_freed, page_released, freed, provided,
  ensured, is_released, Machine, page_size, sk_base, sk_ceiling, memory_alloc, kmalloc, page_call,
  find_region, remove_region, free_calls, user_alloc, user_free, user_size, user_location,
  user_release_all,
}

-- The calls for all regions, in the order of the list.
abbrev pub all_calls : ℕ → List Region → List Call
all_calls map [] = []
all_calls map (mem ∷ alloc) = free_calls map mem ++ all_calls map alloc

find_first : (mem : Region) (alloc : List Region) → find_region mem.virt (mem ∷ alloc) ≡ some mem
unfolding find_region
find_first mem alloc = ground arith

remove_first : (mem : Region) (alloc : List Region) → remove_region mem.virt (mem ∷ alloc) ≡ alloc
unfolding remove_region
remove_first mem alloc = ground arith

abbrev with_calls : Machine → List Call → Machine
with_calls m calls = record m { calls = m.calls ++ calls }

abbrev process : (map flags : ℕ) → List Region → Process
process map flags alloc = record { map = map; flags = flags; alloc = alloc }

user_free_first :
    (map flags : ℕ) (mem : Region) (alloc : List Region) (m : Machine)
    → user_free (process map flags (mem ∷ alloc)) mem.virt m
      ≡ (smk_ok, process map flags alloc, with_calls m (free_calls map mem))
unfolding user_free
user_free_first map flags mem alloc m =
    rw (find_first mem alloc, remove_first mem alloc, user_free) refl

release_step :
    (fuel map flags : ℕ) (mem : Region) (alloc : List Region) (m : Machine)
    → user_release_all (suc fuel) (process map flags (mem ∷ alloc)) m
      ≡ user_release_all fuel (process map flags alloc) (with_calls m (free_calls map mem))
unfolding user_release_all
release_step fuel map flags mem alloc m =
    ap (λ (r : Code × Process × Machine). user_release_all fuel r.1 r.2)
      (user_free_first map flags mem alloc m)

release_end :
    (map flags : ℕ) (m : Machine)
    → user_release_all 1 (process map flags []) m ≡ some (process map flags [], m)
unfolding user_release_all
release_end map flags m = refl

release_list :
    (alloc : List Region) (map flags : ℕ) (m : Machine)
    → user_release_all (suc (length alloc)) (process map flags alloc) m
      ≡ some (process map flags [], with_calls m (all_calls map alloc))
release_list [] map flags m =
    release_end map flags m
    ∙ ap (λ (c : List Call). some (process map flags [], record m { calls = c }))
        (sym (append-nil m.calls))
release_list (mem ∷ alloc) map flags m =
    release_step (suc (length alloc)) map flags mem alloc m
    ∙ (release_list alloc map flags (with_calls m (free_calls map mem))
        ∙ ap (λ (c : List Call). some (process map flags [], record m { calls = c }))
            (append_assoc m.calls (free_calls map mem) (all_calls map alloc)))

-- Kinds of calls, and those of a list that are of a kind.
abbrev pub is_unmapping : Call → Bool
is_unmapping (page_released map virtual pages) = true
is_unmapping (memory_freed pages location) = false
is_unmapping (freed ptr) = false
is_unmapping (provided map location base ceiling pages) = false
is_unmapping (ensured map virtual pages) = false

abbrev pub is_memory : Call → Bool
is_memory (page_released map virtual pages) = false
is_memory (memory_freed pages location) = true
is_memory (freed ptr) = false
is_memory (provided map location base ceiling pages) = false
is_memory (ensured map virtual pages) = false

abbrev pub is_structure : Call → Bool
is_structure (page_released map virtual pages) = false
is_structure (memory_freed pages location) = false
is_structure (freed ptr) = true
is_structure (provided map location base ceiling pages) = false
is_structure (ensured map virtual pages) = false

abbrev pub is_other : Call → Bool
is_other call = not (is_unmapping call || is_memory call || is_structure call)

abbrev pub select : (Call → Bool) → List Call → List Call
select kind [] = []
select kind (call ∷ calls) = if kind call then call ∷ select kind calls else select kind calls

select-append :
    (kind : Call → Bool) (xs ys : List Call)
    → select kind (xs ++ ys) ≡ select kind xs ++ select kind ys
select-append kind [] ys = refl
select-append kind (x ∷ xs) ys = elim (Bool-cases (kind x)) [
  | inl kept ↦ rw (kept, select-append kind xs ys) refl
  | inr dropped ↦ rw (dropped, select-append kind xs ys) refl
]

-- A region that nothing else uses: the count of `shared`, an int, is not positive, and
-- UALLOC_NORELEASE is not set.
abbrev pub is_own : Region → Bool
is_own mem = not (ltb 0 mem.shared && ltb mem.shared (2 ^ 31)) && not (mem.flags % 2 == 1)

-- What has to be done for a list of regions.
abbrev pub unmappings : ℕ → List Region → List Call
unmappings map [] = []
unmappings map (mem ∷ alloc) = page_released map mem.virt mem.pages ∷ unmappings map alloc

abbrev pub memories : List Region → List Call
memories [] = []
memories (mem ∷ alloc) =
    if is_own mem then memory_freed mem.pages mem.phys ∷ memories alloc else memories alloc

abbrev pub structures : List Region → List Call
structures [] = []
structures (mem ∷ alloc) = if is_own mem then freed mem.at ∷ structures alloc else structures alloc

-- The calls `cs` do that and nothing else.
pub record GiveBack (map : ℕ) (alloc : List Region) (cs : List Call) : Type 0 where
  pub unmaps : select is_unmapping cs ≡ unmappings map alloc
  pub frees : select is_memory cs ≡ memories alloc
  pub drops : select is_structure cs ≡ structures alloc
  pub nothing_else : select is_other cs ≡ []

is_released-own : (mem : Region) → is_released mem ≡ is_own mem
is_released-own mem = ground arith

all_calls-GiveBack : (map : ℕ) (alloc : List Region) → GiveBack map alloc (all_calls map alloc)
all_calls-GiveBack map [] = record {
  unmaps = refl;
  frees = refl;
  drops = refl;
  nothing_else = refl;
}
all_calls-GiveBack map (mem ∷ alloc) =
    let rest = all_calls-GiveBack map alloc in
    let same = is_released-own mem in
    elim (Bool-cases (is_own mem)) [
      | inl own ↦ rw (same ∙ own) (record {
        unmaps = ap (λ l. page_released map mem.virt mem.pages ∷ l) rest.unmaps;
        frees = rw own (ap (λ l. memory_freed mem.pages mem.phys ∷ l) rest.frees);
        drops = rw own (ap (λ l. freed mem.at ∷ l) rest.drops);
        nothing_else = rest.nothing_else;
      })
      | inr used ↦ rw (same ∙ used) (record {
        unmaps = ap (λ l. page_released map mem.virt mem.pages ∷ l) rest.unmaps;
        frees = rw used rest.frees;
        drops = rw used rest.drops;
        nothing_else = rest.nothing_else;
      })
    ]

-- `user_release_all` ends in one round more than there are regions. Then the process has none. In the
-- order of its list each region was unmapped, and of each that is neither shared nor marked as not to
-- be released the memory and the structure were freed; nothing else was called.
pub user_release_all_lem :
    (proc : Process) (m : Machine)
    → (cs : List Call) × (user_release_all (suc (length proc.alloc)) proc m
        ≡ some (record proc { alloc = [] }, record m { calls = m.calls ++ cs }))
      × GiveBack proc.map proc.alloc cs
user_release_all_lem proc m = (
  all_calls proc.map proc.alloc,
  release_list proc.alloc proc.map proc.flags m,
  all_calls-GiveBack proc.map proc.alloc,
)

-- The virtual address that `user_alloc` maps its memory at.
abbrev pub found_at : Process → ℕ → Machine → ℕ
found_at proc pages m =
    (page_call (provided proc.map (memory_alloc m).0 sk_base sk_ceiling pages)
      (kmalloc (memory_alloc m).1).1).0

-- The region that `user_alloc` enters where it succeeds.
abbrev pub new_region : Process → (pages : ℕ) → Machine → Region
new_region proc pages m = record {
  at = (kmalloc (memory_alloc m).1).0;
  pages = pages;
  flags = 0;
  phys = (memory_alloc m).0;
  virt = found_at proc pages m;
  shared = 0;
}

user_alloc_result :
    (proc proc' : Process) (pages location : ℕ) (m m' : Machine)
    → user_alloc proc pages m ≡ (smk_ok, some location, proc', m')
    → (proc' ≡ record proc { alloc = new_region proc pages m ∷ proc.alloc })
      × (location ≡ (memory_alloc m).0)
unfolding user_alloc
user_alloc_result proc proc' pages location m m' e = ground (arith, e)

size_first :
    (proc : Process) (mem : Region) (alloc : List Region)
    → user_size (record proc { alloc = mem ∷ alloc }) mem.virt
      ≡ (smk_ok, some (u32 (mem.pages * page_size)))
unfolding user_size
size_first proc mem alloc = rw (find_first mem alloc, user_size) refl

location_first :
    (proc : Process) (mem : Region) (alloc : List Region)
    → user_location (record proc { alloc = mem ∷ alloc }) mem.virt ≡ (smk_ok, some mem.phys)
unfolding user_location
location_first proc mem alloc = rw (find_first mem alloc, user_location) refl

find_region_miss :
    (ptr : ℕ) (mem : Region) (alloc : List Region)
    → mem.virt ≢ ptr
    → find_region ptr alloc ≡ none
    → find_region ptr (mem ∷ alloc) ≡ none
unfolding find_region
find_region_miss ptr mem alloc apart missing = ground (arith, apart, missing)

user_free_missing :
    (proc : Process) (ptr : ℕ) (n : Machine)
    → find_region ptr proc.alloc ≡ none
    → user_free proc ptr n ≡ (smk_not_found, proc, n)
unfolding user_free
user_free_missing proc ptr n missing = rw (missing, user_free) refl

-- Where `user_alloc` succeeds, the virtual address that the memory is mapped at is what the other
-- operations know it by: its size and its location are those of the allocation, and `user_free` of it
-- unmaps it, frees the memory and leaves the process as it was before.
pub user_free-user_alloc :
    (proc proc' : Process) (pages location : ℕ) (m m' n : Machine)
    → user_alloc proc pages m ≡ (smk_ok, some location, proc', m')
    → let virt = found_at proc pages m in
      (user_size proc' virt ≡ (smk_ok, some (u32 (pages * page_size))))
      × (user_location proc' virt ≡ (smk_ok, some location))
      × (user_free proc' virt n ≡ (
        smk_ok,
        proc,
        record n {
          calls =
              n.calls
              ++ (memory_freed pages location
                  ∷ page_released proc.map virt pages
                  ∷ freed (new_region proc pages m).at
                  ∷ []);
        },
      ))
user_free-user_alloc proc proc' pages location m m' n e =
    let (same, from_memory) = user_alloc_result proc proc' pages location m m' e in
    let mem : Region = new_region proc pages m in
    rw (same, from_memory)
      (
        size_first proc mem proc.alloc,
        location_first proc mem proc.alloc,
        user_free_first proc.map proc.flags mem proc.alloc n,
      )

-- But the address that `user_alloc` stores is that of the memory: where no region of the process is
-- mapped at this address, and the new one is not, `user_free` does not find what was allocated.
pub user_free_of_location :
    (proc proc' : Process) (pages location : ℕ) (m m' n : Machine)
    → user_alloc proc pages m ≡ (smk_ok, some location, proc', m')
    → find_region location proc.alloc ≡ none
    → found_at proc pages m ≢ location
    → user_free proc' location n ≡ (smk_not_found, proc', n)
user_free_of_location proc proc' pages location m m' n e missing elsewhere =
    user_free_missing proc' location n (
      ap (λ (p : Process). find_region location p.alloc)
        (user_alloc_result proc proc' pages location m m' e).0
      ∙ find_region_miss location (new_region proc pages m) proc.alloc elsewhere missing)
