-- ===== src/Env.antt =====
-- kernel/env.c: the environment variables of a process. The table is an array of `environment_count`
-- entries behind a pointer; a name is a buffer of `SMK_ENVNAME_LENGTH` bytes and data a buffer of
-- `size` bytes. `kmalloc` and `krealloc` are parameters: they answer NULL, or memory, which for
-- `krealloc` is the table with the entries that it had.
pub mod Entries
pub mod Find
pub mod Read
pub mod Set
mod Tests
use racoon.Base.{
  ℕ, zero, suc, ◌+◌, ◌-◌, ◌*◌, Bool, true, false, not, Option, none, some, ltb, ◌==◌, ◌&&◌,
  if◌then◌else◌, Outcome, ok, fault, ◌>>=◌, ◌>>◌, update, first_index,
}
use racoon.Text.{Buffer, Sign, less, same, more, kmemcpy, kstrncpy, kstrncmp}

-- `SMK_ENVNAME_LENGTH`
abbrev pub name_length : ℕ
name_length = 1024

pub data SmkErr : Type 0 where
  smk_ok smk_nomem smk_bad_params smk_not_found smk_requested_nothing smk_error : SmkErr

pub record EnvironInfo : Type 0 where
  pub name : Buffer
  pub size : ℕ
  pub bytes : Buffer

pub record Environment : Type 0 where
  pub environment : Option (ℕ → EnvironInfo)
  pub environment_count : ℕ

-- `kstrncmp( a, b, SMK_ENVNAME_LENGTH ) == 0`
abbrev pub is_same : Sign → Bool
is_same less = false
is_same same = true
is_same more = false

abbrev pub same_name : Buffer → Buffer → Bool
same_name a b = is_same (kstrncmp a b name_length)

-- The table for a loop over `count` entries: without entries NULL is not read.
pub table_of : Environment → Outcome (ℕ → EnvironInfo)
table_of env = elim env.environment [
  | some info ↦ ok info
  | none ↦
      if env.environment_count == 0
      then ok (λ _. record { name = λ _. 0; size = 0; bytes = λ _. 0 })
      else fault
]

-- The loop that looks for a name; the count where there is none.
pub name_position : (ℕ → EnvironInfo) → ℕ → Buffer → ℕ
name_position info count name = first_index (λ i. same_name (info i).name name) count 0

module _ (kmalloc : ℕ → Option Buffer)
    (krealloc : Option (ℕ → EnvironInfo) → ℕ → Option (ℕ → EnvironInfo)) where
  -- Overwrite the data of entry `i`.
  pub overwrite : Environment → (ℕ → EnvironInfo) → ℕ → Buffer → ℕ → SmkErr × Environment
  overwrite env info i bytes size = elim (kmalloc size) [
    | none ↦ (smk_nomem, env)
    | some mem ↦ (
      smk_ok,
      record env {
        environment =
            some (update info i (record (info i) { size = size; bytes = kmemcpy mem bytes size }));
      },
    )
  ]

  -- `sizeof( struct environ_info )` is 1032.
  pub append : Environment → Buffer → Buffer → ℕ → SmkErr × Environment
  append env name bytes size =
      let pos = env.environment_count in
      elim (kmalloc size) [
        | none ↦ (smk_nomem, env)
        | some mem ↦ elim (krealloc env.environment ((pos + 1) * 1032)) [
          | none ↦ (smk_nomem, record { environment = none; environment_count = 0 })
          | some info ↦ (
            smk_ok,
            record {
              environment = some (
                  update info pos (record {
                    name = kstrncpy (info pos).name name name_length;
                    size = size;
                    bytes = kmemcpy mem bytes size;
                  }));
              environment_count = pos + 1;
            },
          )
        ]
      ]

  pub set_environment :
      Environment → Option Buffer → Option Buffer → ℕ → Outcome (SmkErr × Environment)
  set_environment env name none size = ok (smk_bad_params, env)
  set_environment env none (some bytes) size = ok (smk_bad_params, env)
  set_environment env (some name) (some bytes) size =
      if size == 0 then ok (smk_requested_nothing, env) else (do
        info ← table_of env
        let i = name_position info env.environment_count name
        ok (
            if ltb i env.environment_count
            then overwrite env info i bytes size
            else append env name bytes size))

  -- The loop of `clone_environment` with `k` entries left.
  pub clone_entries : ℕ → ℕ → (ℕ → EnvironInfo) → Environment → Outcome (SmkErr × Environment)
  clone_entries zero i env dest = ok (smk_ok, dest)
  clone_entries (suc k) i env dest = do
    (rc, dest') ← set_environment dest (some (env i).name) (some (env i).bytes) (env i).size
    elim rc [
      | smk_ok ↦ clone_entries k (i + 1) env dest'
      | _ ↦ ok (smk_error, record { environment = none; environment_count = 0 })
    ]

-- `buffer` and `size` are also what is written through the pointers.
pub get_environment : Environment → Buffer → Buffer → ℕ → Outcome (SmkErr × Buffer × ℕ)
get_environment env name buffer size = do
  info ← table_of env
  let i = name_position info env.environment_count name
  ok (
      if ltb i env.environment_count
      then (let new_size = if ltb size (info i).size then size else (info i).size in
          (smk_ok, kmemcpy buffer (info i).bytes new_size, new_size))
      else (smk_not_found, buffer, size))

pub get_environment_size : Environment → Buffer → ℕ → Outcome (SmkErr × ℕ)
get_environment_size env name size = do
  info ← table_of env
  let i = name_position info env.environment_count name
  ok (if ltb i env.environment_count then (smk_ok, (info i).size) else (smk_not_found, size))

-- The name and size of entry `id`, an int that is `none` when negative.
pub get_environment_information :
    Environment → Option ℕ → Buffer → ℕ → Outcome (SmkErr × Buffer × ℕ)
get_environment_information env none name size = ok (smk_not_found, name, size)
get_environment_information env (some id) name size =
    if ltb id env.environment_count
    then (do
      info ← table_of env
      ok (smk_ok, kstrncpy name (info id).name name_length, (info id).size))
    else ok (smk_not_found, name, size)

-- The loop of `remove_environment` with `k` entries left.
pub remove_entries : Buffer → ℕ → ℕ → Bool → (ℕ → EnvironInfo) → Bool × (ℕ → EnvironInfo)
remove_entries name zero i found info = (found, info)
remove_entries name (suc k) i false info =
    remove_entries name k (i + 1) (same_name (info i).name name) info
remove_entries name (suc k) i true info = remove_entries name k (i + 1) true (
    update info (i - 1)
      (record (info i) { name = kmemcpy (info (i - 1)).name (info i).name name_length }))

pub remove_environment :
    (Option (ℕ → EnvironInfo) → ℕ → Option (ℕ → EnvironInfo))
    → Environment
    → Buffer
    → Outcome (SmkErr × Environment)
remove_environment krealloc env name = do
  info ← table_of env
  let (found, info') = remove_entries name env.environment_count 0 false info
  let count = env.environment_count - 1
  ok (
      if found
      then (
        smk_ok,
        record { environment = krealloc (some info') (count * 1032); environment_count = count },
      )
      else (smk_not_found, env))

pub release_environment : Environment → Environment
release_environment env = record { environment = none; environment_count = 0 }

pub clone_environment :
    (ℕ → Option Buffer)
    → (Option (ℕ → EnvironInfo) → ℕ → Option (ℕ → EnvironInfo))
    → Environment
    → Environment
    → Outcome (SmkErr × Environment)
clone_environment kmalloc krealloc dest src = elim src.environment [
  | none ↦ ok (smk_ok, release_environment dest)
  | some info ↦
      clone_entries kmalloc krealloc src.environment_count 0 info (release_environment dest)
]
