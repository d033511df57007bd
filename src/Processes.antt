-- ===== src/Processes.antt =====
-- kernel/processes/process.c: the table of processes, with the list and the tree that hold them. A
-- process is known by its address, which also stands for the addresses of the links inside it. Each
-- operation runs under the lock of the list of processes, so it is one step.
mod Tests
use racoon.Base.{
  is_negative, ℕ, zero, suc, ◌*◌, ◌-◌, ◌^◌, Bool, not, Option, none, some, ◌==◌, ◌&&◌,
  if◌then◌else◌, u32, add32, Outcome, ok, fault, assert, ◌>>=◌, ◌>>◌, true, false,
}
use racoon.Env.{is_same}
use racoon.Text.{Buffer, Sign, less, same, more, kstrncmp}
use racoon.Ds.Htable.{Pointer, Htable, init_htable, htable_insert, htable_remove, htable_retrieve}
use racoon.Ds.Links.{Links, next_linear, list_insert_after, list_remove}
use racoon.Ds.Family.{Family, relative, family_add_child, family_adopt, family_remove}

-- SMK_NAME_LENGTH
abbrev pub name_length : ℕ
name_length = 64

-- What the table reads of `struct process`.
pub record Process : Type 0 where
  pub name : Buffer
  pub pid : ℕ

-- The static variables, and the memory behind the addresses of processes.
pub record Processes : Type 0 where
  pub process_table : Htable Process
  pub root_process : ℕ
  pub last_pid : ℕ
  pub process_at : ℕ → Process
  pub family_tree : ℕ → Family
  pub list : ℕ → Links

-- -1 as an unsigned word.
abbrev pub no_pid : ℕ
no_pid = 2 ^ 32 - 1

pub ptable_key : Process → ℕ
ptable_key p = let key = u32 (p.pid * 100) in if is_negative key then 2 ^ 32 - key else key

-- Whether `ptable_compare` answers 0, for an entry and the sample of the search.
pub is_process : (pid : ℕ) → (name : Buffer) → Process → Bool
is_process pid name a =
    if pid == no_pid then is_same (kstrncmp a.name name name_length) else a.pid == pid

-- `htable_retrieve( l_processTable, &temp )`, where the name of `temp` is empty.
pub retrieve_process : ℕ → Htable Process → Outcome (Option (Pointer Process))
unfolding is_process ptable_key
retrieve_process pid table =
    let temp : Process = record { name = λ i. 0; pid = pid } in
    htable_retrieve (is_process pid temp.name) (ptable_key temp) table

-- The loop of `next_pid`, from the pid that it tries first; behind `fuel` rounds a `fault`.
pub free_pid : (fuel : ℕ) → Htable Process → ℕ → Outcome ℕ
unfolding retrieve_process
free_pid zero table pid = fault
free_pid (suc fuel) table pid =
    let next = add32 pid 1 in
    let rest = free_pid fuel table (if is_negative next then 2 else next) in
    retrieve_process pid table >>= λ entry. elim entry [ none ↦ ok pid | some p ↦ rest ]

-- Behind the loop, `l_PID++` has no roll over.
pub next_pid : (fuel : ℕ) → Processes → Outcome (ℕ × Processes)
unfolding free_pid
next_pid fuel s = do
  pid ← free_pid fuel s.process_table s.last_pid
  ok (pid, record s { last_pid = add32 pid 1 })

pub init_processes : Processes → Outcome Processes
init_processes s = do assert (s.last_pid == 1); ok (record s { process_table = init_htable 128 75 })

-- The loop of `find_process`: `none` means that the rounds do not suffice.
pub find_from : (fuel : ℕ) → Buffer → Processes → (tmp : ℕ) → Option ℕ
unfolding next_linear
find_from zero name s tmp = none
find_from (suc fuel) name s tmp =
    let rest = find_from fuel name s (next_linear tmp s.list) in
    if tmp == 0
    then some no_pid
    else if is_same (kstrncmp name (s.process_at tmp).name name_length)
    then some (s.process_at tmp).pid
    else rest

pub find_process : (fuel : ℕ) → Buffer → Processes → Option ℕ
unfolding find_from
find_process fuel name s = find_from fuel name s s.root_process

abbrev process_pointer : ℕ → Processes → Pointer Process
process_pointer proc s = record { address = proc; target = s.process_at proc }

-- The process and its place in the table; its parent has the id `pid`. As in the code, the result of
-- `htable_insert` is not looked at.
pub insert_process : (room : ℕ → Bool) → (depth pid proc : ℕ) → Processes → Outcome (ℕ × Processes)
unfolding retrieve_process
insert_process room depth pid proc s =
    if s.root_process == 0
    then (do
      (rc, table) ← htable_insert room ptable_key depth (process_pointer proc s) s.process_table
      ok ((s.process_at proc).pid, record s { root_process = proc; process_table = table }))
    else (do
      assert (not (is_negative pid))
      entry ← retrieve_process pid s.process_table
      parent ← elim entry [ none ↦ (do assert false; fault) | some p ↦ ok p.address ]
      (rc, table) ← htable_insert room ptable_key depth (process_pointer proc s) s.process_table
      ok (
        (s.process_at proc).pid,
        record s {
          family_tree = family_add_child parent proc s.family_tree;
          list = list_insert_after s.root_process proc s.list;
          process_table = table;
        },
      ))

-- `fuel` bounds the children that the parent adopts.
pub remove_process : (room : ℕ → Bool) → (fuel depth proc : ℕ) → Processes → Outcome Processes
remove_process room fuel depth proc s = do
  let parent = relative (s.family_tree proc).parent s.family_tree
  assert (not (parent == 0))
  (rc, table) ← htable_remove room ptable_key depth (process_pointer proc s) s.process_table
  elim (family_adopt fuel parent proc s.family_tree) [
    | none ↦ fault
    | some tree ↦ ok (record s {
      family_tree = family_remove proc tree;
      list = list_remove proc s.list;
      process_table = table;
    })
  ]

-- The process that `checkout_process` locks; 0 is NULL.
pub checkout_process : (pid : ℕ) → Processes → Outcome ℕ
unfolding retrieve_process
checkout_process pid s = do
  entry ← retrieve_process pid s.process_table
  elim entry [ none ↦ ok 0 | some p ↦ ok p.address ]

-- The loop of `process_foreach`; `callback` gives a result and changes a state of its own.
pub foreach_from :
    {S : Type 0}
    → (fuel : ℕ) → (callback : ℕ → S → ℕ × S) → (ℕ → Links)
    → (p ans : ℕ) → S
    → Option (ℕ × S)
unfolding next_linear
foreach_from zero callback list p ans s = none
foreach_from (suc fuel) callback list p ans s =
    let (ans', s') = callback p s in
    let rest = foreach_from fuel callback list (next_linear p list) ans' s' in
    if p == 0 then some (ans, s) else if ans' == 0 then rest else some (ans', s')

pub process_foreach :
    {S : Type 0} → (fuel : ℕ) → (callback : ℕ → S → ℕ × S) → Processes → S → Option (ℕ × S)
unfolding foreach_from
process_foreach fuel callback s state = foreach_from fuel callback s.list s.root_process 0 state
