-- ===== src/Env/Read.antt =====
-- Reading a variable that was set.
use racoon.Base.{
  ℕ, ◌+◌, ◌*◌, ◌≤◌, ◌<◌, ◌≡◌, refl, ap, ◌∙◌, sym, dec_lt, true, false, arith, Option, none, some,
  List, [], length, tabulate, length-tabulate, ltb, ok,
}
use racoon.Text.{Buffer, kmemcpy}
use racoon.Text.Compare.{IsBytes}
use racoon.Env.{
  EnvironInfo, Environment, smk_ok, name_length, name_position, table_of, set_environment,
  get_environment,
}
use racoon.Env.Find.{IsTable, value_of}
use racoon.Env.Entries.{Keeps, tabulate-kmemcpy}
use racoon.Env.Set.{set_environment_lem}

some_same : (xs ys : List ℕ) → some xs ≡ some ys → xs ≡ ys
some_same xs ys e = ap (λ (o : Option (List ℕ)). elim o [ none ↦ [] | some zs ↦ zs ]) e

-- A variable has a value that fits into the buffer.
module _ (env : Environment) (info : ℕ → EnvironInfo) (name buffer : Buffer) (capacity : ℕ)
    (pointer : env.environment ≡ some info) where
  abbrev place : ℕ
  place = name_position info env.environment_count name

  table_found : table_of env ≡ ok info
  unfolding table_of
  table_found = rw (pointer, table_of) refl

  get_environment_found :
      place < env.environment_count
      → (info place).size ≤ capacity
      → get_environment env name buffer capacity
        ≡ ok (smk_ok, kmemcpy buffer (info place).bytes (info place).size, (info place).size)
  unfolding get_environment
  get_environment_found found fits =
      let inside : ltb place env.environment_count ≡ true = ground (arith, found) in
      let whole : ltb capacity (info place).size ≡ false = ground (arith, fits) in
      rw (table_found, get_environment) (rw (inside, whole) refl)

  get_environment-value_of :
      (bytes : List ℕ)
      → value_of info env.environment_count name ≡ some bytes
      → length bytes ≤ capacity
      → (buffer' : Buffer) × (get_environment env name buffer capacity
          ≡ ok (smk_ok, buffer', length bytes))
        × (tabulate (length bytes) buffer' ≡ bytes)
  unfolding value_of
  get_environment-value_of bytes value fits = elim (dec_lt place env.environment_count) [
    | no missing ↦
        let outside : ltb place env.environment_count ≡ false = ground (arith, missing) in
        ground (arith, value, outside)
    | yes found ↦
        let entry = info place in
        let inside : ltb place env.environment_count ≡ true = ground (arith, found) in
        let same : tabulate entry.size entry.bytes ≡ bytes =
          some_same (tabulate entry.size entry.bytes) bytes (sym (rw inside refl) ∙ value) in
        let size : entry.size ≡ length bytes =
          sym (length-tabulate entry.size entry.bytes) ∙ ap (λ (l : List ℕ). length l) same in
        (
          kmemcpy buffer entry.bytes entry.size,
          get_environment_found found (omega (arith, fits, size))
              ∙ ap (λ (n : ℕ). ok (smk_ok, kmemcpy buffer entry.bytes entry.size, n)) size,
          ap (λ (n : ℕ). tabulate n (kmemcpy buffer entry.bytes entry.size)) (sym size)
              ∙ tabulate-kmemcpy entry.size buffer entry.bytes
              ∙ same,
        )
  ]

-- With memory, a variable that is set in a table of names reads back: into a buffer with room for it
-- `get_environment` of the name gives the size and the bytes.
pub get_environment-set_environment :
    (kmalloc : ℕ → Option Buffer)
    (krealloc : Option (ℕ → EnvironInfo) → ℕ → Option (ℕ → EnvironInfo)) (env : Environment)
    (info grown : ℕ → EnvironInfo) (name bytes mem : Buffer) (size : ℕ)
    → 0 < size
    → table_of env ≡ ok info
    → IsTable info env.environment_count
    → IsBytes name_length name
    → kmalloc size ≡ some mem
    → Keeps krealloc
    → krealloc env.environment ((env.environment_count + 1) * 1032) ≡ some grown
    → (buffer : Buffer) (capacity : ℕ) → size ≤ capacity
    → (env' : Environment) × (set_environment kmalloc krealloc env (some name) (some bytes) size
        ≡ ok (smk_ok, env'))
      × (buffer' : Buffer) × (get_environment env' name buffer capacity
          ≡ ok (smk_ok, buffer', size))
      × (tabulate size buffer' ≡ tabulate size bytes)
get_environment-set_environment kmalloc krealloc env info grown name bytes mem size pos table valid
      b memory keeps more buffer capacity fits =
    let (env', set, written) =
      set_environment_lem kmalloc krealloc env info name bytes mem size pos table valid b memory
        grown keeps more in
    let len = length-tabulate size bytes in
    let (buffer', read, same) =
      get_environment-value_of env' written.table name buffer capacity written.pointer
        (tabulate size bytes) (written.new_value name b refl) (omega (arith, len, fits)) in
    (
      env',
      set,
      buffer',
      read ∙ ap (λ (n : ℕ). ok (smk_ok, buffer', n)) len,
      ap (λ (n : ℕ). tabulate n buffer') (sym len) ∙ same,
    )
